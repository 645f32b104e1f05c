-- ===== src/Parser/Stream.antt =====
-- loudmouth/lm-parser.c on a whole stream: the header, the stanzas and the closing tag.
use mathlib.Core.List.{append-nil, append_assoc, reverse}
use loudmouth.Base.{
  ◌≡◌, ◌≢◌, refl, ap, ◌∙◌, Bool, false, List, [], ◌∷◌, ◌++◌, Option, none, some, Text, codes,
  str_eq, str_eq_self, if◌then◌else◌,
}
use loudmouth.Node.{Node, node, Children, nil, name_of, Attribute}
use loudmouth.Node.Attributes.{IsUnique}
use loudmouth.Node.Print.{Event, start_element, end_element, events}
use loudmouth.Message.{Message, unknown, message_type_from_string, new_from_node}
use loudmouth.Message.Headers.{type_number-known}
use loudmouth.Parser.Stanza.{
  opened, received, received_children, received_value, IsProper, run-inside, run-children_events,
}
use loudmouth.Parser.{idle, close, close_root, end_node, start_node, step, run}

abbrev pub IsKnown : Node → Type 0
IsKnown n = message_type_from_string (name_of n) ≢ unknown

-- Elements that may stand at the top of a stream.
abbrev pub AreStanzas : List Node → Type 0
AreStanzas [] = Unit {0}
AreStanzas (n ∷ ns) = IsProper n × IsKnown n × AreStanzas ns

pub stanza_events : List Node → List Event
stanza_events [] = []
stanza_events (n ∷ ns) = events n ++ stanza_events ns

abbrev pub stream_name : Text
stream_name = codes "stream:stream"

-- The element that opens a stream: it has no content of its own.
abbrev pub header : List Attribute → Node
header ats = node (some stream_name) none false ats nil

abbrev pub cons_some : Option Message → List Message → List Message
cons_some none ms = ms
cons_some (some m) ms = m ∷ ms

if_some {ℓ} :
    {A : Type ℓ} (b : Bool) (a : A) → b ≡ false → (m : A) × ((if b then none else some a) ≡ some m)
if_some b a h = (a, rw h)

IsKnown-received : (n : Node) → IsKnown n → IsKnown (received n)
unfolding received
IsKnown-received (node n v r ats cs) h = h

module _ (strcaseeq : Text → Text → Bool) where
  -- The messages that the nodes make, as the receiver has them.
  pub messages : List Node → List Message
  messages [] = []
  messages (n ∷ ns) = cons_some (new_from_node strcaseeq (received n)) (messages ns)

  new_from_node-IsKnown :
      (n : Node) → IsKnown n → (m : Message) × (new_from_node strcaseeq n ≡ some m)
  unfolding new_from_node
  new_from_node-IsKnown n known =
      if_some _ _ (type_number-known (message_type_from_string (name_of n)) known)

  run-end_root :
      (name : Text) (v : Option Text) (ats : List Attribute) (cs : Children) (m : Message)
      (es : List Event)
      → new_from_node strcaseeq (node (some name) v false ats cs) ≡ some m
      → run strcaseeq
          (record { open_nodes = node (some name) v false ats cs ∷ [] })
          (end_element name ∷ es)
        ≡ ((run strcaseeq idle es).0, m ∷ (run strcaseeq idle es).1)
  unfolding run step end_node close close_root
  run-end_root name v ats cs m es h = rw (str_eq_self name, end_node, h, close_root)

  pub run-stanza :
      (n : Node) (m : Message) (es : List Event)
      → IsProper n
      → new_from_node strcaseeq (received n) ≡ some m
      → run strcaseeq idle (events n ++ es)
        ≡ ((run strcaseeq idle es).0, m ∷ (run strcaseeq idle es).1)
  unfolding events received
  run-stanza (node none v r ats cs) m es w h = absurd w.0
  run-stanza (node (some name) v r ats cs) m es w h =
      run-inside strcaseeq name v r ats cs [] es w.0 w.1 (run-children_events strcaseeq cs w.2)
      ∙ run-end_root name (received_value v) (reverse ats) (received_children cs) m es h

  run-stanzas :
      (ns : List Node) (es : List Event)
      → AreStanzas ns
      → run strcaseeq idle (stanza_events ns ++ es)
        ≡ ((run strcaseeq idle es).0, messages ns ++ (run strcaseeq idle es).1)
  unfolding stanza_events messages
  run-stanzas [] es w = refl
  run-stanzas (n ∷ ns) es w =
      let (m, e) = new_from_node-IsKnown (received n) (IsKnown-received n w.1) in
      ap (run strcaseeq idle) (append_assoc (events n) (stanza_events ns) es)
      ∙ run-stanza n m (stanza_events ns ++ es) w.0 e
      ∙ rw (run-stanzas ns es w.2, e)

  header-IsKnown : (ats : List Attribute) → IsKnown (received (header ats))
  unfolding received message_type_from_string str_eq
  header-IsKnown ats e = cc

  run-header :
      (ats : List Attribute) (es : List Event)
      → IsUnique ats
      → run strcaseeq idle (start_element stream_name ats ∷ es) ≡ (
        (run strcaseeq idle es).0,
        cons_some (new_from_node strcaseeq (received (header ats))) (run strcaseeq idle es).1,
      )
  unfolding run step start_node end_node close close_root received
  run-header ats es u =
      let (m, e) = new_from_node-IsKnown (received (header ats)) (header-IsKnown ats) in
      rw (opened stream_name ats u, start_node, str_eq_self stream_name, end_node)
        (rw (e, close_root))

-- With nothing open an end tag is passed over.
run-closing :
    (strcaseeq : Text → Text → Bool)
    → run strcaseeq idle (end_element stream_name ∷ []) ≡ (idle, [])
unfolding run step end_node
run-closing strcaseeq = refl

-- The events of a whole stream, its header, any number of stanzas and its closing tag, lead to one
-- message for the header and then one for each stanza, in their order, if every stanza has a known
-- type, and no element is without a name, named like the stream or given one attribute twice. The
-- parser is idle again at the end.
pub run_stream :
    (strcaseeq : Text → Text → Bool) (ats : List Attribute) (ns : List Node)
    → IsUnique ats
    → AreStanzas ns
    → run strcaseeq idle
        (start_element stream_name ats ∷ (stanza_events ns ++ (end_element stream_name ∷ [])))
      ≡ (idle, messages strcaseeq (header ats ∷ ns))
unfolding messages
run_stream strcaseeq ats ns u w =
    run-header strcaseeq ats _ u
    ∙ rw (
      run-stanzas strcaseeq ns (end_element stream_name ∷ []) w,
      run-closing strcaseeq,
      append-nil (messages strcaseeq ns),
    )
