-- ===== src/Parser/Stanza.antt =====
-- What loudmouth/lm-parser.c makes of the events of whole elements.
use mathlib.Core.List.{append-nil, append_assoc, reverse, reverse-cons}
use loudmouth.Base.{
  ◌≡◌, refl, sym, ap, ◌∙◌, Bool, false, List, [], ◌∷◌, ◌++◌, Option, none, some, arith, Text, codes,
  str_eq, str_eq_iff, str_eq_self,
}
use loudmouth.Node.{
  Node, node, Children, nil, cons, name_of, Attribute, set_attributes, set_attribute, put,
  replace_value, add_child_node, append_child, set_value,
}
use loudmouth.Node
use loudmouth.Node.Attributes.{has_key, IsUnique}
use loudmouth.Node.Print.{Event, start_element, end_element, events, children_events, value_events}
use loudmouth.Parser.{Parser, pairs, close, end_node, start_node, text_node, step, run}

-- A value that is sent as no text at all is not seen.
abbrev pub received_value : Option Text → Option Text
received_value none = none
received_value (some []) = none
received_value (some (c ∷ cs)) = some (c ∷ cs)

-- The tree as the receiver has it: attributes in reverse order, since each goes to the front, and
-- no node in raw mode.
unfoldable mutual
  pub received : Node → Node
  received (node n v r ats cs) =
      node n (received_value v) false (reverse ats) (received_children cs)

  pub received_children : Children → Children
  received_children nil = nil
  received_children (cons n cs) = cons (received n) (received_children cs)

-- The name of an element that may stand in a stream.
abbrev pub IsElement : Option Text → Type 0
IsElement none = ⊥
IsElement (some name) = str_eq (codes "stream:stream") name ≡ false

-- Every node has such a name, and no attribute twice.
abbrev mutual
  pub IsProper : Node → Type 0
  IsProper (node n v r ats cs) = IsElement n × IsUnique ats × AreProper cs

  pub AreProper : Children → Type 0
  AreProper nil = Unit
  AreProper (cons n cs) = IsProper n × AreProper cs

-- All of a list of children, put below a node one after the other.
unfoldable pub add_children : Node → Children → Node
add_children parent nil = parent
add_children parent (cons n cs) = add_children (add_child_node parent n) cs

unfoldable pub join : Children → Children → Children
join nil ds = ds
join (cons n cs) ds = cons n (join cs ds)

join-append_child :
    (cs : Children) (n : Node) (ds : Children) → join (append_child cs n) ds ≡ join cs (cons n ds)
unfolding join append_child
join-append_child nil n ds = refl
join-append_child (cons m cs) n ds = cc (join-append_child cs n ds)

join-nil : (cs : Children) → join cs nil ≡ cs
unfolding join
join-nil nil = refl
join-nil (cons n cs) = cc (join-nil cs)

add_children-join :
    (n v : Option Text) (r : Bool) (ats : List Attribute) (cs ds : Children)
    → add_children (node n v r ats cs) ds ≡ node n v r ats (join cs ds)
unfolding add_children add_child_node
add_children-join n v r ats cs nil = rw join-nil
add_children-join n v r ats cs (cons d ds) =
    add_children-join n v r ats (append_child cs d) ds
    ∙ ap (node n v r ats) (join-append_child cs d ds)

-- A key that is not there yet is put in front.
replace_value-none :
    (k v : Text) (ats : List Attribute) → has_key k ats ≡ false → replace_value k v ats ≡ none
unfolding has_key replace_value
replace_value-none k v [] h = refl
replace_value-none k v ((j, w) ∷ ats) h = ground (arith, replace_value-none k v ats)

put-fresh : (k v : Text) (ats : List Attribute) → has_key k ats ≡ false → put k v ats ≡ (k, v) ∷ ats
unfolding put
put-fresh k v ats h = rw (replace_value-none k v ats h, put)

-- No key of the first list stands in the second.
abbrev Fresh : List Attribute → List Attribute → Type 0
Fresh [] acc = Unit
Fresh ((k, v) ∷ ats) acc = (has_key k acc ≡ false) × Fresh ats acc

Fresh-nil : (ats : List Attribute) → Fresh ats []
unfolding has_key
Fresh-nil [] = tt
Fresh-nil ((k, v) ∷ ats) = (refl, Fresh-nil ats)

Fresh-cons :
    (k v : Text) (ats acc : List Attribute)
    → has_key k ats ≡ false
    → Fresh ats acc
    → Fresh ats ((k, v) ∷ acc)
unfolding has_key
Fresh-cons k v [] acc h f = tt
Fresh-cons k v ((j, w) ∷ ats) acc h f =
    ground (arith, str_eq_iff k j, str_eq_iff j k, Fresh-cons k v ats acc, f)

set_attributes-pairs :
    (n v : Option Text) (r : Bool) (acc ats : List Attribute) (cs : Children)
    → IsUnique ats
    → Fresh ats acc
    → set_attributes (node n v r acc cs) (pairs ats) ≡ node n v r (reverse ats ++ acc) cs
unfolding set_attributes set_attribute
set_attributes-pairs n v r acc [] cs u f = refl
set_attributes-pairs n v r acc ((k, w) ∷ ats) cs u f =
    ap (λ l. set_attributes (node n v r l cs) (pairs ats)) (put-fresh k w acc f.0)
    ∙ set_attributes-pairs n v r ((k, w) ∷ acc) ats cs u.1 (Fresh-cons k w ats acc u.0 f.1)
    ∙ ap (λ l. node n v r l cs)
        (sym (append_assoc (reverse ats) ((k, w) ∷ []) acc)
          ∙ ap (λ l. l ++ acc) (sym (reverse-cons (k, w) ats)))

-- A node as `parser_start_node_cb` leaves it.
pub opened :
    (name : Text) (ats : List Attribute)
    → IsUnique ats
    → set_attributes (Node.new (some name)) (pairs ats)
      ≡ node (some name) none false (reverse ats) nil
unfolding Node.new
opened name ats u =
    set_attributes-pairs (some name) none false [] ats nil u (Fresh-nil ats)
    ∙ ap (λ l. node (some name) none false l nil) (append-nil (reverse ats))

regroup {ℓ} :
    {A : Type ℓ} (xs ys zs : List A) (z : A) → (xs ++ (ys ++ z ∷ [])) ++ zs ≡ xs ++ (ys ++ z ∷ zs)
regroup xs ys zs z =
    append_assoc xs (ys ++ z ∷ []) zs ∙ ap (λ l. xs ++ l) (append_assoc ys (z ∷ []) zs)

-- A bare node with all its children added.
add_children-bare :
    (n v : Option Text) (ats : List Attribute) (cs : Children)
    → add_children (node n v false ats nil) cs ≡ node n v false ats cs
unfolding join
add_children-bare n v ats cs = add_children-join n v false ats nil cs

module _ (strcaseeq : Text → Text → Bool) where
  -- A step that hands nothing over.
  run_silent :
      (p : Parser) {q : Parser} (e : Event) (es : List Event)
      → step strcaseeq p e ≡ (q, [])
      → run strcaseeq p (e ∷ es) ≡ run strcaseeq q es
  unfolding run
  run_silent p e es h = rw h

  run-start :
      (ns : List Node) (name : Text) (ats : List Attribute) (es : List Event)
      → IsElement (some name)
      → IsUnique ats
      → run strcaseeq (record { open_nodes = ns }) (start_element name ats ∷ es)
        ≡ run strcaseeq
            (record { open_nodes = node (some name) none false (reverse ats) nil ∷ ns })
            es
  unfolding step start_node
  run-start ns name ats es e u = run_silent _ _ es (rw (e, start_node, opened name ats u))

  run-value :
      (name : Text) (v : Option Text) (ats : List Attribute) (ns : List Node) (es : List Event)
      → run strcaseeq
          (record { open_nodes = node (some name) none false ats nil ∷ ns })
          (value_events v ++ es)
        ≡ run strcaseeq
            (record { open_nodes = node (some name) (received_value v) false ats nil ∷ ns })
            es
  unfolding step text_node str_eq set_value
  run-value name none ats ns es = refl
  run-value name (some []) ats ns es = run_silent _ _ es refl
  run-value name (some (c ∷ cs)) ats ns es = run_silent _ _ es refl

  run-end :
      (name : Text) (v : Option Text) (r : Bool) (ats : List Attribute) (cs : Children)
      (parent : Node) (ns : List Node) (es : List Event)
      → run strcaseeq
          (record { open_nodes = node (some name) v r ats cs ∷ parent ∷ ns })
          (end_element name ∷ es)
        ≡ run strcaseeq
            (record { open_nodes = add_child_node parent (node (some name) v r ats cs) ∷ ns })
            es
  unfolding step end_node close
  run-end name v r ats cs parent ns es = run_silent _ _ es (rw (str_eq_self name, end_node))

  -- What the events of some children do, whatever they are children of.
  abbrev pub Adds : Children → Type 0
  Adds cs =
      (parent : Node) (ns : List Node) (es : List Event)
      → run strcaseeq (record { open_nodes = parent ∷ ns }) (children_events cs ++ es)
        ≡ run strcaseeq (record { open_nodes = add_children parent (received_children cs) ∷ ns }) es

  -- An element up to its end tag.
  pub run-inside :
      (name : Text) (v : Option Text) (r : Bool) (ats : List Attribute) (cs : Children)
      (ns : List Node) (es : List Event)
      → IsElement (some name)
      → IsUnique ats
      → Adds cs
      → run strcaseeq (record { open_nodes = ns }) (events (node (some name) v r ats cs) ++ es)
        ≡ run strcaseeq
            (record { open_nodes = received (node (some name) v r ats cs) ∷ ns })
            (end_element name ∷ es)
  unfolding events received
  run-inside name v r ats cs ns es e u inside =
      let bare = node (some name) (received_value v) false (reverse ats) nil in
      run-start ns name ats _ e u
      ∙ ap
          (λ l.
            run strcaseeq
              (record { open_nodes = node (some name) none false (reverse ats) nil ∷ ns }) l)
          (regroup (value_events v) (children_events cs) es (end_element name))
      ∙ run-value name v (reverse ats) ns (children_events cs ++ end_element name ∷ es)
      ∙ inside bare ns (end_element name ∷ es)
      ∙ ap (λ n. run strcaseeq (record { open_nodes = n ∷ ns }) (end_element name ∷ es))
          (add_children-bare (some name) (received_value v) (reverse ats) (received_children cs))

  mutual
    unfolding events received add_children

    run-events :
        (n : Node) (parent : Node) (ns : List Node) (es : List Event)
        → IsProper n
        → run strcaseeq (record { open_nodes = parent ∷ ns }) (events n ++ es)
          ≡ run strcaseeq (record { open_nodes = add_child_node parent (received n) ∷ ns }) es
    run-events (node none v r ats cs) parent ns es w = absurd w.0
    run-events (node (some name) v r ats cs) parent ns es w =
        run-inside name v r ats cs (parent ∷ ns) es w.0 w.1 (run-children_events cs w.2)
        ∙ run-end name (received_value v) false (reverse ats) (received_children cs) parent ns es

    pub run-children_events : (cs : Children) → AreProper cs → Adds cs
    run-children_events nil w parent ns es = refl
    run-children_events (cons n cs) w parent ns es =
        ap (run strcaseeq (record { open_nodes = parent ∷ ns }))
          (append_assoc (events n) (children_events cs) es)
        ∙ run-events n parent ns (children_events cs ++ es) w.0
        ∙ run-children_events cs w.1 (add_child_node parent (received n)) ns es
