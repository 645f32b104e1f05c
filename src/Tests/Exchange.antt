-- ===== src/Tests/Exchange.antt =====
-- Tests of the model of loudmouth/lm-sasl.c.
use loudmouth.Base.{
  ℕ, ◌≡◌, refl, Bool, true, false, if◌then◌else◌, List, [], ◌∷◌, none, some, Text, codes, str_eq,
  ◌==◌, take,
}
use mathlib.Core.List.{reverse}
use loudmouth.Node.{Node, node, nil, cons, get_attribute}
use loudmouth.Message.{Message, MessageType, SubType}
use loudmouth.Sasl.Calls.{success, begin, calls}
use loudmouth.Sasl.Challenge.{Table, parsed, lookup, challenge_to_hash}
use loudmouth.Sasl.Challenge.RoundTrip.{
  ArePrintable, challenge_text, challenge_to_hash-challenge_text,
}
use loudmouth.Sasl.Digest.{prepare_response, check_server_response}
use loudmouth.Sasl.Gssapi.{Gss, Gssapi, continue_needed, not_gssapi, handled, handle_challenges}
use loudmouth.Sasl.Gssapi
use loudmouth.Sasl.Gssapi.Abort.{is_aborted, handle_challenges-start}
use loudmouth.Sasl.Machine.{new, is_foreign}
use loudmouth.Sasl.Ready.{IsReady, calls-IsReady}
use loudmouth.Sasl.Rfc.{check_server_response_rfc}
use loudmouth.Sasl.{AuthParameters, Sasl, Env, report, sasl_auth_ns}

-- An outside whose hash keeps the start of its text and whose base64 is no change.
abbrev env : Env
env = record {
  md5 = λ t. take 16 t;
  base64_encode = λ t. t;
  base64_decode = λ t. t;
  isspace = λ c. c == b' ';
  send = λ m. true;
  id = codes "1";
  random = codes "abc";
}

abbrev params : AuthParameters
params = record { username = codes "u"; password = codes "p"; resource = codes "r" }

abbrev ready : Sasl
ready = record new { auth_params = some params; server = some (codes "h"); has_handler = true }

abbrev entries : List (Text × Text)
entries = (codes "nonce", codes "xyz") ∷ []

abbrev table : Table
table = (codes "realm", codes "h") ∷ entries

abbrev mechanisms : Text → Text → Node
mechanisms a b = node (some (codes "mechanisms")) none false ((codes "xmlns", sasl_auth_ns) ∷ []) (
    cons (node (some (codes "mechanism")) (some a) false [] nil)
      (cons (node (some (codes "mechanism")) (some b) false [] nil) nil))

nonce_found : lookup (codes "nonce") table ≡ some (codes "xyz")
unfolding lookup str_eq
nonce_found = refl

check_server_response_rfc_example :
    check_server_response env (prepare_response env ready table).0 [] ≡ (
      (prepare_response env ready table).0,
      report (prepare_response env ready table).0 true (some (codes "server error")),
      false,
    )
unfolding lookup
check_server_response_rfc_example =
    check_server_response_rfc env env ready table [] params (codes "xyz") refl nonce_found

abbrev success_message : Message
success_message = record {
  node = node (some (codes "success")) none false ((codes "xmlns", sasl_auth_ns) ∷ []) nil;
  type = MessageType.success;
  sub_type = SubType.not_set;
}

success_known : is_foreign success_message.node ≡ false
unfolding str_eq get_attribute
success_known = refl

calls-IsReady_example :
    IsReady
      (calls new (begin env params (some (codes "h")) true ∷ success env success_message ∷ [])).0
calls-IsReady_example =
    calls-IsReady (begin env params (some (codes "h")) true ∷ success env success_message ∷ [])

table-ArePrintable : ArePrintable (λ c. c == b' ') table
table-ArePrintable = (
  (refl, (refl, (refl, (refl, (refl, (refl, tt)))))),
  ((refl, tt), (refl, tt)),
  (
    (refl, (refl, (refl, (refl, (refl, (refl, tt)))))),
    ((refl, (refl, (refl, tt))), (refl, (refl, (refl, tt)))),
    tt,
  ),
)

challenge_to_hash-challenge_text_example :
    challenge_to_hash (λ c. c == b' ') (challenge_text (codes "realm", codes "h") entries)
    ≡ parsed (reverse table)
challenge_to_hash-challenge_text_example =
    challenge_to_hash-challenge_text (λ c. c == b' ') (codes "realm") (codes "h") entries
      table-ArePrintable

-- A library that knows one service, and one that knows none.
abbrev gss : Bool → Gss ℕ ℕ
gss known = record {
  import_name = λ name. if known then some 1 else none;
  init_sec_context = λ service ctx input. continue_needed 2 (codes "token");
  unwrap = λ ctx input. some input;
  wrap = λ ctx input. some input;
}

abbrev kerberos : Gssapi ℕ ℕ
kerberos = record {
  state = not_gssapi;
  auth_params = params;
  server = some (codes "h");
  has_handler = true;
  gss_ctx = none;
  gss_service = none;
}

abbrev challenge_node : Node
challenge_node = node (some (codes "challenge")) none false [] nil

handle_challenges-start_example :
    is_aborted (
      handle_challenges
        (gss false)
        env
        (handled
          (Gssapi.start (gss false) env kerberos).0
          (Gssapi.start (gss false) env kerberos).1
          (Gssapi.start (gss false) env kerberos).2)
        (challenge_node ∷ []))
    ≡ true
handle_challenges-start_example =
    handle_challenges-start (gss false) env kerberos challenge_node [] refl
