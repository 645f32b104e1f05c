-- ===== src/Sasl.antt =====
-- loudmouth/lm-sasl.c: the choice of a mechanism and the exchange of SASL.
pub mod Challenge
pub mod Digest
pub mod Machine
pub mod Mechanism
pub mod Rfc
pub mod Calls
pub mod Ready
pub mod Verdict
pub mod Gssapi
use loudmouth.Base.{
  ℕ, ◌+◌, ◌/◌, ◌%◌, ◌≡◌, refl, Bool, true, false, not, ◌&&◌, ◌||◌, List, [], ◌∷◌, ◌++◌, map, Option,
  none, some, arith, Text, codes, str_eq, opt_str_eq, is_null, ltb, take, drop, length,
  if◌then◌else◌,
}
use loudmouth.Node.{
  Node, Children, nil, cons, get_attribute, set_attributes, get_value, set_value, find_child,
  children_of,
}
use loudmouth.Message.{Message, MessageType, response, auth}
use loudmouth.Message
use loudmouth.Handler.{HandlerResult, remove_message, allow_more_handlers}

-- `AuthType`, a set of bits.
pub record AuthType : Type 0 where
  pub plain : Bool
  pub digest : Bool
  pub gssapi : Bool

abbrev pub no_type : AuthType
no_type = record { plain = false; digest = false; gssapi = false }

abbrev pub type_plain : AuthType
type_plain = record { plain = true; digest = false; gssapi = false }

abbrev pub type_digest : AuthType
type_digest = record { plain = false; digest = true; gssapi = false }

-- A `switch` over the set takes these cases only where one bit alone is set.
abbrev pub is_plain : AuthType → Bool
is_plain t = t.plain && not t.digest && not t.gssapi

abbrev pub is_digest : AuthType → Bool
is_digest t = not t.plain && t.digest && not t.gssapi

-- `SaslAuthState`, less the states of GSSAPI.
pub data AuthState : Type 0 where
  no_mech plain_started digest_md5_started : AuthState
  digest_md5_sent_auth_response digest_md5_sent_final_response : AuthState

-- `LmAuthParameters`
pub record AuthParameters : Type 0 where
  pub username : Text
  pub password : Text
  pub resource : Text

-- `struct _LmSASL`; of the handlers for stanzas it is only kept which are registered.
pub record Sasl : Type 0 where
  pub auth_type : AuthType
  pub state : AuthState
  pub auth_params : Option AuthParameters
  pub server : Option Text
  pub digest_md5_rspauth : Option Text
  pub features_received : Bool
  pub start_auth : Bool
  pub has_handler : Bool

-- What it does to the connection: messages that it sends, and calls of `sasl->handler`.
pub data Effect : Type 0 where
  sends : Message → Effect
  reports : Bool → Option Text → Effect

-- What comes from elsewhere: the hash of md5.c, base64 and spaces of GLib, the result of
-- `lm_connection_send`, and for each call the id of a new message and random bytes.
pub record Env : Type 0 where
  pub md5 : Text → Text
  pub base64_encode : Text → Text
  pub base64_decode : Text → Text
  pub isspace : ℕ → Bool
  pub send : Message → Bool
  pub id : Text
  pub random : Text

abbrev pub sasl_auth_ns : Text
sasl_auth_ns = codes "urn:ietf:params:xml:ns:xmpp-sasl"

-- `if (sasl->handler) sasl->handler (…)`
abbrev pub report : Sasl → Bool → Option Text → List Effect
report s success reason = if s.has_handler then reports success reason ∷ [] else []

-- `printf` of a text that may be `NULL`.
abbrev pub shown : Option Text → Text
shown none = codes "(null)"
shown (some t) = t
