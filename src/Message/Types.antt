-- ===== src/Message/Types.antt =====
-- The tables of loudmouth/lm-message.c, read and written.
use loudmouth.Base.{ℕ, ◌≡◌, refl, Bool, Text, str_eq, map, leb, ◌+◌, ◌&&◌, if◌then◌else◌}
use loudmouth.Message.{
  MessageType, message, SubType, not_set, available, message_type_from_string, type_to_string,
  sub_type_to_string, sub_type_from_string,
}

-- Reading the name of a message type gives the type back.
pub message_type_from_string-type_to_string :
    (type : MessageType) → message_type_from_string (type_to_string type) ≡ type
unfolding message_type_from_string type_to_string str_eq
message_type_from_string-type_to_string message = refl
message_type_from_string-type_to_string _ = refl

-- `g_ascii_tolower`
abbrev pub to_lower : ℕ → ℕ
to_lower c = if leb b'A' c && leb c b'Z' then c + 32 else c

-- What GLib documents of `g_ascii_strcasecmp`: it compares with ASCII letters taken to lower case.
pub record IsAsciiCompare (strcaseeq : Text → Text → Bool) : Type 0 where
  pub compares : (a b : Text) → strcaseeq a b ≡ str_eq (map to_lower a) (map to_lower b)

-- The sub type that a receiver sees: the two below `NORMAL` have no name.
abbrev pub on_wire : SubType → SubType
on_wire available = not_set
on_wire sub_type = sub_type

-- Under GLib's documented comparison, reading the name of a sub type gives the sub type back; the
-- two that have no name, not_set and available, are read back as not_set.
pub sub_type_from_string-sub_type_to_string :
    (strcaseeq : Text → Text → Bool) (sub_type : SubType)
    → IsAsciiCompare strcaseeq
    → sub_type_from_string strcaseeq (sub_type_to_string sub_type) ≡ on_wire sub_type
unfolding sub_type_from_string sub_type_to_string str_eq
sub_type_from_string-sub_type_to_string strcaseeq not_set c = refl
sub_type_from_string-sub_type_to_string strcaseeq available c = refl
sub_type_from_string-sub_type_to_string strcaseeq _ c = simp c.compares
