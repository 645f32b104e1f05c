-- ===== src/Tests/Messages.antt =====
-- Tests of the model of loudmouth/lm-message.c.
use loudmouth.Base.{◌≡◌, ◌≢◌, refl, Bool, some, Text, codes, str_eq, map}
use loudmouth.Message.{iq, unknown, SubType, sub_type_from_string}
use loudmouth.Message.Types.{to_lower, IsAsciiCompare}

-- `g_ascii_strcasecmp`, where it is zero.
abbrev pub strcaseeq : Text → Text → Bool
strcaseeq a b = str_eq (map to_lower a) (map to_lower b)

pub strcaseeq-IsAsciiCompare : IsAsciiCompare strcaseeq
strcaseeq-IsAsciiCompare = record { compares = λ a b. refl }

sub_type_from_string_upper :
    sub_type_from_string strcaseeq (some (codes "GroupChat")) ≡ SubType.groupchat
unfolding sub_type_from_string str_eq
sub_type_from_string_upper = refl

iq-ne-unknown : iq ≢ unknown
iq-ne-unknown e = cc
