-- ===== src/Node.antt =====
-- loudmouth/lm-message-node.c: the tree of nodes that a message is built of.
-- A node owns its children, so the tree is a value here: `children`, `next`, `prev` and `parent`
-- are its shape, and the reference counts stand in Node/Shared alone. An operation that changes
-- `*node` returns the changed node.
pub mod Attributes
pub mod Search
pub mod Print
pub mod Shared
use mathlib.Core.Option
use loudmouth.Base.{
  ℕ, ◌+◌, ◌≡◌, refl, Bool, true, false, List, [], ◌∷◌, ◌++◌, Option, none, some, arith, Text, codes,
  str_eq, opt_str_eq, if◌then◌else◌,
}

-- `KeyValuePair`
abbrev pub Attribute : Type 0
Attribute = Text × Text

-- `LmMessageNode`: name, value, raw_mode, attributes (the order of the `GSList`) and children.
-- A root may have no name: `lm_message_new` of an unknown type makes it from `NULL`.
mutual
  pub data Node : Type 0 where
    node : Option Text → Option Text → Bool → List Attribute → Children → Node

  pub data Children : Type 0 where
    nil : Children
    cons : Node → Children → Children

abbrev pub name_of : Node → Option Text
name_of (node n v r ats cs) = n

abbrev pub value_of : Node → Option Text
value_of (node n v r ats cs) = v

abbrev pub raw_mode_of : Node → Bool
raw_mode_of (node n v r ats cs) = r

abbrev pub attributes_of : Node → List Attribute
attributes_of (node n v r ats cs) = ats

abbrev pub children_of : Node → Children
children_of (node n v r ats cs) = cs

-- `_lm_message_node_new`
unfoldable pub new : Option Text → Node
new name = node name none false [] nil

-- `message_node_last_child`
unfoldable pub last_child : Children → Option Node
last_child nil = none
last_child (cons n nil) = some n
last_child (cons n (cons m cs)) = last_child (cons m cs)

-- The link that `_lm_message_node_add_child_node` makes behind the last child.
unfoldable pub append_child : Children → Node → Children
append_child nil child = cons child nil
append_child (cons n cs) child = cons n (append_child cs child)

-- `_lm_message_node_add_child_node`
unfoldable pub add_child_node : Node → Node → Node
unfolding append_child
add_child_node (node n v r ats cs) child = node n v r ats (append_child cs child)

-- `lm_message_node_get_value`
unfoldable pub get_value : Node → Option Text
get_value n = value_of n

-- `lm_message_node_set_value`
unfoldable pub set_value : Node → Option Text → Node
set_value (node n v r ats cs) value = node n value r ats cs

-- `lm_message_node_add_child`: the new child is also returned, `NULL` for a `NULL` name.
unfoldable pub add_child : Node → Option Text → Option Text → Node × Option Node
unfolding new set_value add_child_node
add_child n none value = (n, none)
add_child n (some name) value =
    let child = set_value (new (some name)) value in (add_child_node n child, some child)

-- The loop of `lm_message_node_set_attribute`: the first attribute with that key gets the value.
-- `none`: not found.
unfoldable pub replace_value : Text → Text → List Attribute → Option (List Attribute)
replace_value name value [] = none
replace_value name value ((k, v) ∷ ats) =
    if str_eq k name
    then some ((k, value) ∷ ats)
    else Option.map (λ found. (k, v) ∷ found) (replace_value name value ats)

-- A new attribute goes to the front, by `g_slist_prepend`.
unfoldable pub put : Text → Text → List Attribute → List Attribute
unfolding replace_value
put name value ats = elim (replace_value name value ats) [
  | none ↦ (name, value) ∷ ats
  | some found ↦ found
]

-- `lm_message_node_set_attribute`: a `NULL` name or value changes nothing.
unfoldable pub set_attribute : Node → Option Text → Option Text → Node
unfolding put
set_attribute n none value = n
set_attribute n (some name) none = n
set_attribute (node n v r ats cs) (some name) (some value) = node n v r (put name value ats) cs

-- `lm_message_node_set_attributes`: the pairs up to the closing `NULL`.
unfoldable pub set_attributes : Node → List (Text × Option Text) → Node
unfolding set_attribute
set_attributes n [] = n
set_attributes n ((name, value) ∷ rest) = set_attributes (set_attribute n (some name) value) rest

-- The loop of `lm_message_node_get_attribute`: it does not stop at a match, so the last one counts.
unfoldable pub last_value : Text → Option Text → List Attribute → Option Text
last_value name ret_val [] = ret_val
last_value name ret_val ((k, v) ∷ ats) =
    last_value name (if str_eq k name then some v else ret_val) ats

-- `lm_message_node_get_attribute`
unfoldable pub get_attribute : Node → Option Text → Option Text
unfolding last_value
get_attribute n none = none
get_attribute n (some name) = last_value name none (attributes_of n)

-- The loop of `lm_message_node_get_child`.
unfoldable pub first_named : Text → Children → Option Node
first_named name nil = none
first_named name (cons l rest) =
    if opt_str_eq (name_of l) name then some l else first_named name rest

-- `lm_message_node_get_child`
unfoldable pub get_child : Node → Option Text → Option Node
unfolding first_named
get_child n none = none
get_child n (some child_name) = first_named child_name (children_of n)

-- A result that is not `NULL` ends the search.
abbrev pub or_else : Option Node → Option Node → Option Node
or_else none later = later
or_else (some found) later = some found

-- `lm_message_node_find_child` below a node, and its loop over the children. The test
-- `l->children` before the recursive call is the empty list's clause.
unfoldable mutual
  pub find_below : Text → Node → Option Node
  find_below name (node n v r ats cs) = find_among name cs

  pub find_among : Text → Children → Option Node
  find_among name nil = none
  find_among name (cons l rest) =
      if opt_str_eq (name_of l) name
      then some l
      else or_else (find_below name l) (find_among name rest)

-- `lm_message_node_find_child`
unfoldable pub find_child : Node → Option Text → Option Node
unfolding find_below
find_child n none = none
find_child n (some child_name) = find_below child_name n

-- `lm_message_node_get_raw_mode`
unfoldable pub get_raw_mode : Node → Bool
get_raw_mode n = raw_mode_of n

-- `lm_message_node_set_raw_mode`
unfoldable pub set_raw_mode : Node → Bool → Node
set_raw_mode (node n v r ats cs) raw_mode = node n v raw_mode ats cs

-- `lm_message_node_to_string`. The escaping is GLib's `g_markup_escape_text`, a parameter.
module _ (escape : Text → Text) where
  -- The text of one attribute or value: escaped unless the node is in raw mode.
  abbrev pub markup : Bool → Text → Text
  markup raw_mode text = if raw_mode then text else escape text

  -- The loop over the attributes, each ` key="value"`.
  unfoldable pub attributes_string : Bool → List Attribute → Text
  attributes_string raw_mode [] = []
  attributes_string raw_mode ((k, v) ∷ ats) =
      b' ' ∷ (k ++ (b'=' ∷ b'"' ∷ (markup raw_mode v ++ (b'"' ∷ attributes_string raw_mode ats))))

  unfoldable pub value_string : Bool → Option Text → Text
  value_string raw_mode none = []
  value_string raw_mode (some value) = markup raw_mode value

  unfoldable mutual
    pub to_string : Node → Text
    to_string (node none v r ats cs) = []
    to_string (node (some name) v r ats cs) =
        b'<'
        ∷ (name
            ++ (attributes_string r ats
                ++ (b'>'
                    ∷ (value_string r v
                        ++ (children_string cs ++ (b'<' ∷ b'/' ∷ (name ++ (b'>' ∷ []))))))))

    pub children_string : Children → Text
    children_string nil = []
    children_string (cons child rest) = to_string child ++ children_string rest
