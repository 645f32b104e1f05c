-- ===== src/Node/Attributes.antt =====
-- The attribute list of loudmouth/lm-message-node.c: its keys are unique, and under unique keys
-- reading is the inverse of writing.
use loudmouth.Base.{
  ◌≡◌, refl, ◌∙◌, Bool, false, ◌||◌, List, [], ◌∷◌, Option, none, some, arith, Text, str_eq,
  str_eq_iff, if◌then◌else◌,
}
use loudmouth.Node.{
  Attribute, Node, node, attributes_of, name_of, put, set_attribute, set_attributes, last_value,
  get_attribute,
}

unfoldable pub has_key : Text → List Attribute → Bool
has_key name [] = false
has_key name ((k, v) ∷ ats) = str_eq k name || has_key name ats

-- No key stands twice.
abbrev pub IsUnique : List Attribute → Type 0
IsUnique [] = Unit {0}
IsUnique ((k, v) ∷ ats) = (has_key k ats ≡ false) × IsUnique ats

abbrev pub HasUniqueKeys : Node → Type 0
HasUniqueKeys n = IsUnique (attributes_of n)

-- The value at the first entry with that key.
unfoldable pub assoc : Text → List Attribute → Option Text
assoc name [] = none
assoc name ((k, v) ∷ ats) = if str_eq k name then some v else assoc name ats

assoc-put :
    (j k v : Text) (ats : List Attribute)
    → assoc j (put k v ats) ≡ (if str_eq k j then some v else assoc j ats)
unfolding assoc put
assoc-put j k v [] = refl
assoc-put j k v ((i, w) ∷ ats) =
    ground (arith, str_eq_iff k j, str_eq_iff i k, str_eq_iff i j, assoc-put j k v ats)

has_key-put :
    (j k v : Text) (ats : List Attribute) → has_key j (put k v ats) ≡ (str_eq k j || has_key j ats)
unfolding has_key put
has_key-put j k v [] = ground arith
has_key-put j k v ((i, w) ∷ ats) =
    ground (arith, str_eq_iff k j, str_eq_iff i k, str_eq_iff i j, has_key-put j k v ats)

pub put-IsUnique : (k v : Text) (ats : List Attribute) → IsUnique ats → IsUnique (put k v ats)
unfolding has_key put
put-IsUnique k v [] u = (refl, tt)
put-IsUnique k v ((i, w) ∷ ats) u =
    ground (arith, str_eq_iff i k, str_eq_iff k i, has_key-put i k v ats, put-IsUnique k v ats u.1)

last_value_absent :
    (name : Text) (d : Option Text) (ats : List Attribute)
    → has_key name ats ≡ false
    → last_value name d ats ≡ d
unfolding has_key last_value
last_value_absent name d [] h = refl
last_value_absent name d ((k, v) ∷ ats) h = ground (arith, last_value_absent name d ats)

pub last_value-assoc :
    (name : Text) (d : Option Text) (ats : List Attribute)
    → IsUnique ats
    → last_value name d ats ≡ (if has_key name ats then assoc name ats else d)
unfolding has_key last_value assoc
last_value-assoc name d [] u = refl
last_value-assoc name d ((k, v) ∷ ats) u =
    ground (
      arith,
      str_eq_iff k name,
      last_value_absent name (some v) ats,
      last_value-assoc name d ats u.1,
    )

has_key-false :
    (name : Text) (ats : List Attribute) → has_key name ats ≡ false → assoc name ats ≡ none
unfolding has_key assoc
has_key-false name [] h = refl
has_key-false name ((k, v) ∷ ats) h = ground (arith, has_key-false name ats)

-- Under unique keys the last match that the code takes is the first.
pub get_attribute-assoc :
    (n : Node) (name : Text)
    → HasUniqueKeys n
    → get_attribute n (some name) ≡ assoc name (attributes_of n)
unfolding get_attribute
get_attribute-assoc (node n v r ats cs) name u =
    ground (arith, last_value-assoc name none ats u, has_key-false name ats)

pub set_attribute-HasUniqueKeys :
    (n : Node) (name value : Option Text)
    → HasUniqueKeys n
    → HasUniqueKeys (set_attribute n name value)
unfolding set_attribute
set_attribute-HasUniqueKeys n none value u = u
set_attribute-HasUniqueKeys n (some name) none u = u
set_attribute-HasUniqueKeys (node n v r ats cs) (some name) (some value) u =
    put-IsUnique name value ats u

pub name_of-set_attributes :
    (n : Node) (ats : List (Text × Option Text)) → name_of (set_attributes n ats) ≡ name_of n
unfolding set_attributes set_attribute
name_of-set_attributes n [] = refl
name_of-set_attributes (node n v r ats cs) ((k, none) ∷ rest) =
    name_of-set_attributes (node n v r ats cs) rest
name_of-set_attributes (node n v r ats cs) ((k, some value) ∷ rest) =
    name_of-set_attributes (set_attribute (node n v r ats cs) (some k) (some value)) rest

-- lm_message_node_set_attributes keeps the keys of a node unique, whatever pairs it is given.
set_attributes-HasUniqueKeys :
    (n : Node) (pairs : List (Text × Option Text))
    → HasUniqueKeys n
    → HasUniqueKeys (set_attributes n pairs)
unfolding set_attributes
set_attributes-HasUniqueKeys n [] u = u
set_attributes-HasUniqueKeys n ((name, value) ∷ rest) u =
    set_attributes-HasUniqueKeys (set_attribute n (some name) value) rest
      (set_attribute-HasUniqueKeys n (some name) value u)

-- On a node with unique keys lm_message_node_get_attribute reads what
-- lm_message_node_set_attribute wrote under that name, and under any other name what it read before.
pub get_attribute-set_attribute :
    (n : Node) (name value other : Text)
    → HasUniqueKeys n
    → get_attribute (set_attribute n (some name) (some value)) (some other)
      ≡ (if str_eq name other then some value else get_attribute n (some other))
unfolding set_attribute
get_attribute-set_attribute (node n v r ats cs) name value other u =
    get_attribute-assoc (node n v r (put name value ats) cs) other (put-IsUnique name value ats u)
    ∙ assoc-put other name value ats
    ∙ ground (arith, get_attribute-assoc (node n v r ats cs) other u)
