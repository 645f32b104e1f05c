-- ===== src/Message/Headers.antt =====
-- A message that loudmouth/lm-message.c builds is read back from its root node.
use loudmouth.Base.{
  ◌≡◌, ◌≢◌, refl, sym, ap, ◌∙◌, Bool, false, [], ◌∷◌, Option, none, some, arith, Text, codes,
  str_eq, if◌then◌else◌, Option-cases, inl, inr,
}
use loudmouth.Node.{Node, node, name_of, get_attribute, set_attribute, set_attributes}
use loudmouth.Node.Attributes.{
  name_of-set_attributes, HasUniqueKeys, get_attribute-set_attribute, set_attribute-HasUniqueKeys,
}
use loudmouth.Message.Types.{
  IsAsciiCompare, on_wire, sub_type_from_string-sub_type_to_string,
  message_type_from_string-type_to_string,
}
use loudmouth.Message.{
  MessageType, message, iq, unknown, SubType, type_eq, type_number, type_to_string,
  message_type_from_string, sub_type_to_string, sub_type_when_unset, sub_type_from_string, new,
  new_with_sub_type, new_from_node,
}

name_of-new :
    (id : Text) (to : Option Text) (type : MessageType)
    → name_of (new id to type).node ≡ type_to_string type
unfolding new set_attribute loudmouth.Node.new
name_of-new id to type = ground arith

new-HasUniqueKeys :
    (id : Text) (to : Option Text) (type : MessageType) → HasUniqueKeys (new id to type).node
unfolding new set_attribute loudmouth.Node.new loudmouth.Node.Attributes.has_key str_eq
new-HasUniqueKeys id none message = ground arith
new-HasUniqueKeys id (some jid) message = ground arith
new-HasUniqueKeys id none _ = ground arith
new-HasUniqueKeys id (some jid) _ = ground arith

-- Only an iq has a type from the start.
abbrev first_type : MessageType → Option Text
first_type type = if type_eq type iq then some (codes "get") else none

get_attribute-new :
    (id : Text) (to : Option Text) (type : MessageType)
    → get_attribute (new id to type).node (some (codes "type")) ≡ first_type type
unfolding new get_attribute set_attribute loudmouth.Node.new type_number str_eq
get_attribute-new id none message = refl
get_attribute-new id (some jid) message = refl
get_attribute-new id none _ = refl
get_attribute-new id (some jid) _ = refl

pub type_number-known : (type : MessageType) → type ≢ unknown → type_eq type unknown ≡ false
unfolding type_number
type_number-known message h = refl
type_number-known unknown h = absurd (h refl)
type_number-known _ h = refl

-- What `_lm_message_new_from_node` makes of a root whose name and type attribute are known.
module _ (strcaseeq : Text → Text → Bool) where
  abbrev sub_type_of : MessageType → Option Text → SubType
  sub_type_of type none = sub_type_when_unset type
  sub_type_of type (some sub_type_str) = sub_type_from_string strcaseeq (some sub_type_str)

  pub new_from_node_known :
      (root : Node) (type : MessageType) (attribute : Option Text)
      → name_of root ≡ type_to_string type
      → get_attribute root (some (codes "type")) ≡ attribute
      → type ≢ unknown
      → new_from_node strcaseeq root
        ≡ some (record { node = root; type = type; sub_type = sub_type_of type attribute })
  unfolding new_from_node
  new_from_node_known root type none named typed known =
      let read : message_type_from_string (name_of root) ≡ type =
        ap message_type_from_string named ∙ message_type_from_string-type_to_string type in
      rw (typed, read, type_number-known type known)
  new_from_node_known root type (some sub_type_str) named typed known =
      let read : message_type_from_string (name_of root) ≡ type =
        ap message_type_from_string named ∙ message_type_from_string-type_to_string type in
      rw (typed, read, type_number-known type known)

sub_type_of-first_type :
    (strcaseeq : Text → Text → Bool) (type : MessageType)
    → IsAsciiCompare strcaseeq
    → sub_type_of strcaseeq type (first_type type) ≡ sub_type_when_unset type
unfolding type_number sub_type_when_unset sub_type_to_string
sub_type_of-first_type strcaseeq message c = refl
sub_type_of-first_type strcaseeq iq c =
    sub_type_from_string-sub_type_to_string strcaseeq SubType.get c
sub_type_of-first_type strcaseeq _ c = refl

on_wire-named :
    (sub_type : SubType) (type_str : Text)
    → sub_type_to_string sub_type ≡ some type_str
    → on_wire sub_type ≡ sub_type
unfolding sub_type_to_string
on_wire-named SubType.available type_str h = cc
on_wire-named _ type_str h = refl

new_lem :
    (id : Text) (to : Option Text) (type : MessageType)
    → new id to type
      ≡ record { node = (new id to type).node; type = type; sub_type = sub_type_when_unset type }
unfolding new
new_lem id to type = refl

get_attribute-set_type :
    (root : Node) (type_str : Text)
    → HasUniqueKeys root
    → get_attribute (set_attributes root ((codes "type", some type_str) ∷ [])) (some (codes "type"))
      ≡ some type_str
unfolding set_attributes str_eq
get_attribute-set_type root type_str u =
    get_attribute-set_attribute root (codes "type") type_str (codes "type") u

-- A message of a known type made by lm_message_new_with_sub_type is read back from its root node
-- by _lm_message_new_from_node, with the same type and the same sub type, whoever it is for.
pub new_from_node-new_with_sub_type :
    (strcaseeq : Text → Text → Bool) (id : Text) (to : Option Text) (type : MessageType)
    (sub_type : SubType)
    → IsAsciiCompare strcaseeq
    → type ≢ unknown
    → new_from_node strcaseeq (new_with_sub_type id to type sub_type).node
      ≡ some (new_with_sub_type id to type sub_type)
unfolding new_with_sub_type
new_from_node-new_with_sub_type strcaseeq id to type sub_type c known =
    elim (Option-cases (sub_type_to_string sub_type)) [
      | inl e ↦
          rw (e, new_with_sub_type)
            (new_from_node_known strcaseeq (new id to type).node type (first_type type)
                (name_of-new id to type) (get_attribute-new id to type) known
              ∙ ap (λ s. some (record { node = (new id to type).node; type = type; sub_type = s }))
                  (sub_type_of-first_type strcaseeq type c)
              ∙ ap some (sym (new_lem id to type)))
      | inr (type_str, e) ↦
          rw (e, new_with_sub_type)
            (let root = set_attributes (new id to type).node ((codes "type", some type_str) ∷ []) in
              new_from_node_known strcaseeq root type (some type_str)
                (name_of-set_attributes (new id to type).node _ ∙ name_of-new id to type)
                (get_attribute-set_type (new id to type).node type_str
                  (new-HasUniqueKeys id to type))
                known
              ∙ ap (λ s. some (record { node = root; type = type; sub_type = s }))
                  (ap (sub_type_from_string strcaseeq) (sym e)
                    ∙ sub_type_from_string-sub_type_to_string strcaseeq sub_type c
                    ∙ on_wire-named sub_type type_str e))
    ]
