-- ===== src/Parser/Unknown.antt =====
-- An element of an unknown type at the top of the stream stops loudmouth/lm-parser.c for good.
use loudmouth.Base.{
  ◌≡◌, refl, ap, ◌∙◌, Bool, false, List, [], ◌∷◌, Option, none, some, Text, codes, str_eq,
  str_eq_iff, Bool-cases, inl, inr, opt_str_eq,
}
use loudmouth.Node.{Node, node, name_of, Attribute, set_attributes, set_attribute, add_child_node}
use loudmouth.Node
use loudmouth.Node.Attributes.{name_of-set_attributes}
use loudmouth.Node.Print.{Event, start_element, end_element, text}
use loudmouth.Message.{Message, unknown, type_number, message_type_from_string, new_from_node}
use loudmouth.Parser.{
  Parser, idle, pairs, close, close_root, end_node, start_node, text_node, step, run,
}

-- The name is not in the table of message types.
abbrev pub IsUnknown : Node → Type 0
IsUnknown n = message_type_from_string (name_of n) ≡ unknown

-- The outermost open node is of an unknown type.
abbrev pub IsStuck : List Node → Type 0
IsStuck [] = ⊥
IsStuck (root ∷ []) = IsUnknown root
IsStuck (n ∷ parent ∷ outer) = IsStuck (parent ∷ outer)

new_from_node-IsUnknown :
    (strcaseeq : Text → Text → Bool) (n : Node) → IsUnknown n → new_from_node strcaseeq n ≡ none
unfolding new_from_node type_number
new_from_node-IsUnknown strcaseeq n h = rw h

add_child_node-IsStuck :
    (parent child : Node) (outer : List Node)
    → IsStuck (parent ∷ outer)
    → IsStuck (add_child_node parent child ∷ outer)
unfolding add_child_node
add_child_node-IsStuck (node n v r ats cs) child [] h = h
add_child_node-IsStuck (node n v r ats cs) child (next ∷ outer) h = h

-- What a callback returns: nothing handed over, and still stuck.
abbrev StaysStuck : Parser × List Message → Type 0
StaysStuck (p, messages) = IsStuck p.open_nodes × (messages ≡ [])

module _ (strcaseeq : Text → Text → Bool) where
  close-StaysStuck :
      (n : Node) (outer : List Node) → IsStuck (n ∷ outer) → StaysStuck (close strcaseeq n outer)
  unfolding close close_root
  close-StaysStuck n [] h = rw (new_from_node-IsUnknown strcaseeq n h, close_root) (h, refl)
  close-StaysStuck n (parent ∷ outer) h = (add_child_node-IsStuck parent n outer h, refl)

  end_node-StaysStuck :
      (ns : List Node) (name : Text) → IsStuck ns → StaysStuck (end_node strcaseeq ns name)
  unfolding end_node
  end_node-StaysStuck [] name h = absurd h
  end_node-StaysStuck (n ∷ outer) name h = elim (Bool-cases (opt_str_eq (name_of n) name)) [
    | inl same ↦ rw (same, end_node) (close-StaysStuck n outer h)
    | inr other ↦ rw (other, end_node) (h, refl)
  ]

  push-IsStuck : (n : Node) (ns : List Node) → IsStuck ns → IsStuck (n ∷ ns)
  push-IsStuck n [] h = absurd h
  push-IsStuck n (parent ∷ outer) h = h

  set_value-IsStuck :
      (n : Node) (v : Option Text) (outer : List Node)
      → IsStuck (n ∷ outer)
      → IsStuck (Node.set_value n v ∷ outer)
  unfolding Node.set_value
  set_value-IsStuck (node n w r ats cs) v [] h = h
  set_value-IsStuck (node n w r ats cs) v (parent ∷ outer) h = h

  text_node-StaysStuck :
      (ns : List Node) (t : Text) → IsStuck ns → StaysStuck (text_node strcaseeq ns t)
  unfolding text_node
  text_node-StaysStuck [] t h = absurd h
  text_node-StaysStuck (n ∷ outer) t h = elim (Bool-cases (str_eq t [])) [
    | inl empty ↦ rw (empty, text_node) (h, refl)
    | inr some_text ↦ rw (some_text, text_node) (set_value-IsStuck n (some t) outer h, refl)
  ]

  start_node-StaysStuck :
      (ns : List Node) (name : Text) (ats : List Attribute)
      → IsStuck ns
      → StaysStuck (start_node strcaseeq ns name ats)
  unfolding start_node
  start_node-StaysStuck ns name ats h =
      let n = set_attributes (Node.new (some name)) (pairs ats) in
      elim (Bool-cases (str_eq (codes "stream:stream") name)) [
        | inl stream ↦
            rw (stream, start_node)
              (end_node-StaysStuck (n ∷ ns) (codes "stream:stream") (push-IsStuck n ns h))
        | inr other ↦ rw (other, start_node) (push-IsStuck n ns h, refl)
      ]

  step-StaysStuck :
      (p : Parser) (e : Event) → IsStuck p.open_nodes → StaysStuck (step strcaseeq p e)
  unfolding step
  step-StaysStuck p (start_element name ats) h = start_node-StaysStuck p.open_nodes name ats h
  step-StaysStuck p (end_element name) h = end_node-StaysStuck p.open_nodes name h
  step-StaysStuck p (text t) h = text_node-StaysStuck p.open_nodes t h

  pub run-IsStuck :
      (p : Parser) (es : List Event)
      → IsStuck p.open_nodes
      → IsStuck (run strcaseeq p es).0.open_nodes × ((run strcaseeq p es).1 ≡ [])
  unfolding run
  run-IsStuck p [] h = (h, refl)
  run-IsStuck p (e ∷ es) h =
      let (stuck, none_now) = step-StaysStuck p e h in
      let (still, none_later) = run-IsStuck (step strcaseeq p e).0 es stuck in
      (still, rw (none_now, none_later))

name_of-opened :
    (name : Text) (ats : List Attribute)
    → name_of (set_attributes (Node.new (some name)) (pairs ats)) ≡ some name
unfolding Node.new
name_of-opened name ats = name_of-set_attributes (Node.new (some name)) (pairs ats)

unknown-ne-stream :
    (name : Text)
    → message_type_from_string (some name) ≡ unknown
    → str_eq (codes "stream:stream") name ≡ false
unfolding message_type_from_string str_eq
unknown-ne-stream name h = elim (Bool-cases (str_eq (codes "stream:stream") name)) [
  | inl same ↦ absurd (stream_known (rw (← (str_eq_iff (codes "stream:stream") name).0 same) at h))
  | inr other ↦ other
]
  where
    stream_known : ¬ (message_type_from_string (some (codes "stream:stream")) ≡ unknown)
    stream_known e = cc

-- If an element opens at the top of the stream whose name is no known message type, then nothing
-- that follows, its end tag and whole stanzas included, is ever handed over as a message.
pub run_unknown :
    (strcaseeq : Text → Text → Bool) (name : Text) (ats : List Attribute) (es : List Event)
    → message_type_from_string (some name) ≡ unknown
    → (run strcaseeq idle (start_element name ats ∷ es)).1 ≡ []
unfolding run step start_node
run_unknown strcaseeq name ats es h =
    rw (unknown-ne-stream name h, start_node)
      (run-IsStuck strcaseeq
        (record { open_nodes = set_attributes (Node.new (some name)) (pairs ats) ∷ [] }) es
        (ap message_type_from_string (name_of-opened name ats) ∙ h)).1
