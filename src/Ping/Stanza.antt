-- ===== src/Ping/Stanza.antt =====
-- The ping that loudmouth/lm-feature-ping.c sends.
use loudmouth.Base.{◌≡◌, refl, Option, none, some, Text, codes, str_eq}
use loudmouth.Node.{
  Node, node, nil, get_attribute, get_child, first_named, set_attribute, set_attributes,
}
use loudmouth.Node
use loudmouth.Message.{new, new_with_sub_type, type_to_string, sub_type_to_string, type_number}
use loudmouth.Ping.{ping_message, ping_ns}

-- A ping has the id and the server that are given, the second only if there is one, is an iq of type
-- get, and the `<ping>` found in it is in the namespace of XEP-0199.
ping_message_lem :
    (id : Text) (server : Option Text)
    → let root = (ping_message id server).node in
      (get_attribute root (some (codes "id")) ≡ some id)
      × (get_attribute root (some (codes "to")) ≡ server)
      × (get_attribute root (some (codes "type")) ≡ some (codes "get"))
      × (get_child root (some (codes "ping"))
          ≡ some (
              set_attribute (Node.new (some (codes "ping"))) (some (codes "xmlns")) (some ping_ns)))
unfolding ping_message new_with_sub_type new type_to_string sub_type_to_string type_number
    set_attributes get_attribute get_child first_named Node.new str_eq
ping_message_lem id none = (refl, refl, refl, refl)
ping_message_lem id (some server) = (refl, refl, refl, refl)
