-- ===== src/Message.antt =====
-- loudmouth/lm-message.c: the types of a message, read from and written to its root node.
pub mod Types
pub mod Headers
use loudmouth.Base.{
  ℕ, zero, suc, ◌+◌, ◌≡◌, refl, Bool, true, false, not, List, [], ◌∷◌, Option, none, some, arith,
  Text, codes, str_eq, opt_str_eq, ◌==◌, if◌then◌else◌, map, leb, ◌&&◌,
}
use loudmouth.Node.{Node, name_of, set_attribute, set_attributes, get_attribute}
use loudmouth.Node

-- `LmMessageType`
pub data MessageType : Type 0 where
  message presence iq stream stream_error stream_features auth challenge response : MessageType
  success failure proceed starttls unknown : MessageType

-- `LmMessageSubType`
pub data SubType : Type 0 where
  not_set available normal chat groupchat headline unavailable probe subscribe : SubType
  unsubscribe subscribed unsubscribed get set result error : SubType

-- The number of the `enum` constant.
unfoldable pub type_number : MessageType → ℕ
type_number message = 0
type_number presence = 1
type_number iq = 2
type_number stream = 3
type_number stream_error = 4
type_number stream_features = 5
type_number auth = 6
type_number challenge = 7
type_number response = 8
type_number success = 9
type_number failure = 10
type_number proceed = 11
type_number starttls = 12
type_number unknown = 13

-- The entries of `type_names` before the last, whose name is `NULL`.
unfoldable pub type_names : List (MessageType × Text)
type_names =
    (message, codes "message")
    ∷ (presence, codes "presence")
    ∷ (iq, codes "iq")
    ∷ (stream, codes "stream:stream")
    ∷ (stream_error, codes "stream:error")
    ∷ (stream_features, codes "stream:features")
    ∷ (auth, codes "auth")
    ∷ (challenge, codes "challenge")
    ∷ (response, codes "response")
    ∷ (success, codes "success")
    ∷ (failure, codes "failure")
    ∷ (proceed, codes "proceed")
    ∷ (starttls, codes "starttls")
    ∷ []

unfoldable pub sub_type_names : List (SubType × Text)
sub_type_names =
    (normal, codes "normal")
    ∷ (chat, codes "chat")
    ∷ (groupchat, codes "groupchat")
    ∷ (headline, codes "headline")
    ∷ (unavailable, codes "unavailable")
    ∷ (probe, codes "probe")
    ∷ (subscribe, codes "subscribe")
    ∷ (unsubscribe, codes "unsubscribe")
    ∷ (subscribed, codes "subscribed")
    ∷ (unsubscribed, codes "unsubscribed")
    ∷ (get, codes "get")
    ∷ (set, codes "set")
    ∷ (result, codes "result")
    ∷ (error, codes "error")
    ∷ []

-- `table[i]` of a table of types and names.
abbrev pub entry_name {ℓ} : {A : Type ℓ} → List (A × Text) → ℕ → Option Text
entry_name [] i = none
entry_name ((a, name) ∷ rest) zero = some name
entry_name ((a, name) ∷ rest) (suc i) = entry_name rest i

-- The loop of `message_type_from_string` over the entries of the table.
unfoldable pub scan_types : Text → List (MessageType × Text) → MessageType
scan_types type_str [] = unknown
scan_types type_str ((type, name) ∷ rest) =
    if str_eq type_str name then type else scan_types type_str rest

-- `message_type_from_string`
unfoldable pub message_type_from_string : Option Text → MessageType
unfolding scan_types type_names
message_type_from_string none = unknown
message_type_from_string (some type_str) = scan_types type_str type_names

-- `_lm_message_type_to_string`: the entry of `type_names` behind those above is `NULL`.
unfoldable pub type_to_string : MessageType → Option Text
unfolding type_names type_number
type_to_string type = entry_name type_names (type_number type)

-- The place of a sub type in `sub_type_names`; `none` for the constants below `NORMAL`.
unfoldable pub sub_type_number : SubType → Option ℕ
sub_type_number not_set = none
sub_type_number available = none
sub_type_number normal = some 0
sub_type_number chat = some 1
sub_type_number groupchat = some 2
sub_type_number headline = some 3
sub_type_number unavailable = some 4
sub_type_number probe = some 5
sub_type_number subscribe = some 6
sub_type_number unsubscribe = some 7
sub_type_number subscribed = some 8
sub_type_number unsubscribed = some 9
sub_type_number get = some 10
sub_type_number set = some 11
sub_type_number result = some 12
sub_type_number error = some 13

-- `_lm_message_sub_type_to_string`
unfoldable pub sub_type_to_string : SubType → Option Text
unfolding sub_type_names sub_type_number
sub_type_to_string sub_type = elim (sub_type_number sub_type) [
  | none ↦ none
  | some i ↦ entry_name sub_type_names i
]

-- `message_sub_type_when_unset`
unfoldable pub sub_type_when_unset : MessageType → SubType
sub_type_when_unset message = not_set
sub_type_when_unset presence = available
sub_type_when_unset iq = get
sub_type_when_unset _ = normal

abbrev pub type_eq : MessageType → MessageType → Bool
type_eq a b = type_number a == type_number b

-- `LmMessage`, with the type and sub type of its private part.
pub record Message : Type 0 where
  pub node : Node
  pub type : MessageType
  pub sub_type : SubType

-- `lm_message_new`. The id is what `_lm_utils_generate_id` made, from the clock and a counter.
unfoldable pub new : Text → Option Text → MessageType → Message
unfolding type_to_string sub_type_when_unset type_number
new id to type =
    let bare = Node.new (type_to_string type) in
    let with_id =
      if not (type_eq type stream)
      then set_attribute bare (some (codes "id")) (some id)
      else bare in
    let with_to : Node = elim to [
      | none ↦ with_id
      | some jid ↦ set_attribute with_id (some (codes "to")) (some jid)
    ] in
    let with_type =
      if type_eq type iq
      then set_attribute with_to (some (codes "type")) (some (codes "get"))
      else with_to in
    record { node = with_type; type = type; sub_type = sub_type_when_unset type }

-- `lm_message_new_with_sub_type`
unfoldable pub new_with_sub_type : Text → Option Text → MessageType → SubType → Message
unfolding new sub_type_to_string
new_with_sub_type id to type sub_type =
    let m = new id to type in
    elim (sub_type_to_string sub_type) [
      | none ↦ m
      | some type_str ↦ record m {
        node = set_attributes m.node ((codes "type", some type_str) ∷ []);
        sub_type = sub_type;
      }
    ]

-- `g_ascii_strcasecmp (a, b) == 0` of GLib is a parameter.
module _ (strcaseeq : Text → Text → Bool) where
  -- The loop of `message_sub_type_from_string`.
  unfoldable pub scan_sub_types : Text → List (SubType × Text) → SubType
  scan_sub_types type_str [] = not_set
  scan_sub_types type_str ((sub_type, name) ∷ rest) =
      if strcaseeq type_str name then sub_type else scan_sub_types type_str rest

  -- `message_sub_type_from_string`. It returns the place in the table, which is the constant there.
  unfoldable pub sub_type_from_string : Option Text → SubType
  unfolding scan_sub_types sub_type_names
  sub_type_from_string none = not_set
  sub_type_from_string (some type_str) = scan_sub_types type_str sub_type_names

  -- `_lm_message_new_from_node`
  unfoldable pub new_from_node : Node → Option Message
  unfolding message_type_from_string sub_type_from_string sub_type_when_unset type_number
  new_from_node root =
      let type = message_type_from_string (name_of root) in
      let sub_type : SubType = elim (get_attribute root (some (codes "type"))) [
        | none ↦ sub_type_when_unset type
        | some sub_type_str ↦ sub_type_from_string (some sub_type_str)
      ] in
      if type_eq type unknown
      then none
      else some (record { node = root; type = type; sub_type = sub_type })
