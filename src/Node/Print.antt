-- ===== src/Node/Print.antt =====
-- lm_message_node_to_string as a list of markup events, each printed on its own.
use mathlib.Core.List.{append-nil, append_assoc}
use loudmouth.Base.{◌≡◌, refl, false, List, [], ◌∷◌, ◌++◌, Option, none, some, Text, codes}
use loudmouth.Node.{
  Node, node, Children, nil, cons, Attribute, attributes_string, value_string, to_string,
  children_string,
}

-- What the XML parser reports to the callbacks of loudmouth/lm-parser.c.
pub data Event : Type 0 where
  start_element : Text → List Attribute → Event
  end_element : Text → Event
  text : Text → Event

abbrev pub value_events : Option Text → List Event
value_events none = []
value_events (some value) = text value ∷ []

-- The events of a document with this root. A node with no name has none.
unfoldable mutual
  pub events : Node → List Event
  events (node none v r ats cs) = []
  events (node (some name) v r ats cs) =
      start_element name ats ∷ (value_events v ++ (children_events cs ++ (end_element name ∷ [])))

  pub children_events : Children → List Event
  children_events nil = []
  children_events (cons n cs) = events n ++ children_events cs

-- Nowhere in raw mode.
abbrev mutual
  pub IsEscaped : Node → Type 0
  IsEscaped (node n v r ats cs) = (r ≡ false) × AreEscaped cs

  pub AreEscaped : Children → Type 0
  AreEscaped nil = Unit
  AreEscaped (cons n cs) = IsEscaped n × AreEscaped cs

module _ (escape : Text → Text) where
  -- One attribute in a start tag.
  abbrev attribute_text : Attribute → Text
  attribute_text (k, v) = codes " " ++ (k ++ (codes "=\"" ++ (escape v ++ codes "\"")))

  unfoldable pub tag_attributes : List Attribute → Text
  tag_attributes [] = []
  tag_attributes (a ∷ ats) = attribute_text a ++ tag_attributes ats

  attributes_string-tag :
      (ats : List Attribute) → attributes_string escape false ats ≡ tag_attributes ats
  unfolding attributes_string tag_attributes
  attributes_string-tag [] = refl
  attributes_string-tag ((k, v) ∷ ats) = simp (attributes_string-tag ats, append_assoc)

  unfoldable pub event_string : Event → Text
  unfolding tag_attributes
  event_string (start_element name ats) = b'<' ∷ (name ++ (tag_attributes ats ++ (b'>' ∷ [])))
  event_string (end_element name) = b'<' ∷ b'/' ∷ (name ++ (b'>' ∷ []))
  event_string (text t) = escape t

  unfoldable pub events_string : List Event → Text
  unfolding event_string
  events_string [] = []
  events_string (e ∷ es) = event_string e ++ events_string es

  events_string-append :
      (es fs : List Event) → events_string (es ++ fs) ≡ events_string es ++ events_string fs
  unfolding events_string
  events_string-append [] fs = refl
  events_string-append (e ∷ es) fs = simp (events_string-append es, append_assoc)

  value_string-events :
      (v : Option Text) → value_string escape false v ≡ events_string (value_events v)
  unfolding value_string events_string
  value_string-events none = refl
  value_string-events (some v) = simp append-nil

module _ (escape : Text → Text) where
  mutual
    unfolding to_string events event_string events_string value_string

    to_string-events_lem :
        (n : Node) → IsEscaped n → to_string escape n ≡ events_string escape (events n)
    to_string-events_lem (node none v r ats cs) e = refl
    to_string-events_lem (node (some name) v r ats cs) e = rw e.0 (
        simp (
          events_string-append escape,
          value_string-events escape v,
          attributes_string-tag escape ats,
          children_string-events cs e.1,
          append_assoc,
        ))

    children_string-events :
        (cs : Children)
        → AreEscaped cs
        → children_string escape cs ≡ events_string escape (children_events cs)
    children_string-events nil e = refl
    children_string-events (cons n cs) e =
        simp
          (events_string-append escape, to_string-events_lem n e.0, children_string-events cs e.1)

-- A tree with no node in raw mode is printed as the concatenation of its events: its start tag
-- with every attribute in list order, its value, its children in order and its end tag, with
-- attribute values and text, and nothing else, passed through the escape function.
pub to_string-events :
    (escape : Text → Text) (n : Node)
    → IsEscaped n
    → to_string escape n ≡ events_string escape (events n)
to_string-events = to_string-events_lem
