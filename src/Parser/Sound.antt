-- ===== src/Parser/Sound.antt =====
-- The nodes that loudmouth/lm-parser.c builds, from whatever events.
use loudmouth.Base.{
  ◌≡◌, sym, Bool, List, [], ◌∷◌, ◌++◌, Option, none, some, arith, Text, codes, str_eq, opt_str_eq,
  Bool-cases, Option-cases, inl, inr, subst,
}
use loudmouth.Node.{
  Node, node, Children, nil, cons, name_of, Attribute, set_attributes, set_attribute,
  add_child_node, append_child, set_value,
}
use loudmouth.Node
use loudmouth.Node.Attributes.{IsUnique, put-IsUnique}
use loudmouth.Node.Print.{Event, start_element, end_element, text}
use loudmouth.Message.{Message, new_from_node}
use loudmouth.Parser.{
  Parser, idle, pairs, close, close_root, end_node, start_node, text_node, step, run,
}

abbrev pub IsNamed : Option Text → Type 0
IsNamed none = ⊥
IsNamed (some name) = Unit {0}

-- Every node of the tree has a name, which the code compares without a check, and unique keys.
abbrev mutual
  pub IsSound : Node → Type 0
  IsSound (node n v r ats cs) = IsNamed n × IsUnique ats × AreSound cs

  pub AreSound : Children → Type 0
  AreSound nil = Unit
  AreSound (cons n cs) = IsSound n × AreSound cs

abbrev pub AllSound : List Node → Type 0
AllSound [] = Unit {0}
AllSound (n ∷ ns) = IsSound n × AllSound ns

abbrev pub AllMessagesSound : List Message → Type 0
AllMessagesSound [] = Unit {0}
AllMessagesSound (m ∷ ms) = IsSound m.node × AllMessagesSound ms

set_attributes-IsSound :
    (n : Node) (ps : List (Text × Option Text)) → IsSound n → IsSound (set_attributes n ps)
unfolding set_attributes set_attribute
set_attributes-IsSound n [] s = s
set_attributes-IsSound (node n v r ats cs) ((k, none) ∷ rest) s =
    set_attributes-IsSound (node n v r ats cs) rest s
set_attributes-IsSound (node n v r ats cs) ((k, some w) ∷ rest) (named, unique, below) =
    set_attributes-IsSound (set_attribute (node n v r ats cs) (some k) (some w)) rest
      (named, put-IsUnique k w ats unique, below)

opened-IsSound :
    (name : Text) (ats : List Attribute)
    → IsSound (set_attributes (Node.new (some name)) (pairs ats))
unfolding Node.new
opened-IsSound name ats = set_attributes-IsSound (Node.new (some name)) (pairs ats) (tt, tt, tt)

append_child-AreSound :
    (cs : Children) (n : Node) → AreSound cs → IsSound n → AreSound (append_child cs n)
unfolding append_child
append_child-AreSound nil n s t = (t, tt)
append_child-AreSound (cons m cs) n s t = (s.0, append_child-AreSound cs n s.1 t)

add_child_node-IsSound :
    (parent child : Node) → IsSound parent → IsSound child → IsSound (add_child_node parent child)
unfolding add_child_node
add_child_node-IsSound (node n v r ats cs) child (named, unique, below) t =
    (named, unique, append_child-AreSound cs child below t)

set_value-IsSound : (n : Node) (v : Option Text) → IsSound n → IsSound (set_value n v)
unfolding set_value
set_value-IsSound (node n w r ats cs) v s = s

-- What a callback leaves open and hands over.
abbrev StaysSound : Parser × List Message → Type 0
StaysSound (p, ms) = AllSound p.open_nodes × AllMessagesSound ms

module _ (strcaseeq : Text → Text → Bool) where
  node-new_from_node : (n : Node) (m : Message) → new_from_node strcaseeq n ≡ some m → m.node ≡ n
  unfolding new_from_node
  node-new_from_node n m h = ground arith

  close_root-StaysSound : (n : Node) → IsSound n → StaysSound (close_root strcaseeq n)
  unfolding close_root
  close_root-StaysSound n s = elim (Option-cases (new_from_node strcaseeq n)) [
    | inl e ↦ rw (e, close_root) ((s, tt), tt)
    | inr (m, e) ↦ rw (e, close_root) (tt, (subst IsSound (sym (node-new_from_node n m e)) s, tt))
  ]

  end_node-StaysSound :
      (ns : List Node) (name : Text) → AllSound ns → StaysSound (end_node strcaseeq ns name)
  unfolding end_node close
  end_node-StaysSound [] name s = (tt, tt)
  end_node-StaysSound (n ∷ []) name s = elim (Bool-cases (opt_str_eq (name_of n) name)) [
    | inl same ↦ rw (same, end_node) (close_root-StaysSound n s.0)
    | inr other ↦ rw (other, end_node) (s, tt)
  ]
  end_node-StaysSound (n ∷ parent ∷ outer) name s =
      elim (Bool-cases (opt_str_eq (name_of n) name)) [
        | inl same ↦ rw (same, end_node) ((add_child_node-IsSound parent n s.1.0 s.0, s.1.1), tt)
        | inr other ↦ rw (other, end_node) (s, tt)
      ]

  start_node-StaysSound :
      (ns : List Node) (name : Text) (ats : List Attribute)
      → AllSound ns
      → StaysSound (start_node strcaseeq ns name ats)
  unfolding start_node
  start_node-StaysSound ns name ats s = elim (Bool-cases (str_eq (codes "stream:stream") name)) [
    | inl stream ↦
        rw (stream, start_node)
          (end_node-StaysSound (_ ∷ ns) (codes "stream:stream") (opened-IsSound name ats, s))
    | inr other ↦ rw (other, start_node) ((opened-IsSound name ats, s), tt)
  ]

  text_node-StaysSound :
      (ns : List Node) (t : Text) → AllSound ns → StaysSound (text_node strcaseeq ns t)
  unfolding text_node
  text_node-StaysSound [] t s = (tt, tt)
  text_node-StaysSound (n ∷ outer) t s = elim (Bool-cases (str_eq t [])) [
    | inl empty ↦ rw (empty, text_node) (s, tt)
    | inr some_text ↦ rw (some_text, text_node) ((set_value-IsSound n (some t) s.0, s.1), tt)
  ]

  step-StaysSound :
      (p : Parser) (e : Event) → AllSound p.open_nodes → StaysSound (step strcaseeq p e)
  unfolding step
  step-StaysSound p (start_element name ats) s = start_node-StaysSound p.open_nodes name ats s
  step-StaysSound p (end_element name) s = end_node-StaysSound p.open_nodes name s
  step-StaysSound p (text t) s = text_node-StaysSound p.open_nodes t s

  append-AllMessagesSound :
      (ms later : List Message)
      → AllMessagesSound ms
      → AllMessagesSound later
      → AllMessagesSound (ms ++ later)
  append-AllMessagesSound [] later s t = t
  append-AllMessagesSound (m ∷ ms) later s t = (s.0, append-AllMessagesSound ms later s.1 t)

  run-StaysSound :
      (p : Parser) (es : List Event) → AllSound p.open_nodes → StaysSound (run strcaseeq p es)
  unfolding run
  run-StaysSound p [] s = (s, tt)
  run-StaysSound p (e ∷ es) s =
      let (open_sound, now) = step-StaysSound p e s in
      let (end_sound, later) = run-StaysSound (step strcaseeq p e).0 es open_sound in
      (end_sound, append-AllMessagesSound _ _ now later)

-- Whatever events arrive, in whatever order, every node that is open afterwards and every node of
-- every message handed over has a name and no attribute twice, at every depth.
pub run-AllSound :
    (strcaseeq : Text → Text → Bool) (es : List Event)
    → AllSound (run strcaseeq idle es).0.open_nodes × AllMessagesSound (run strcaseeq idle es).1
run-AllSound strcaseeq es = run-StaysSound strcaseeq idle es tt
