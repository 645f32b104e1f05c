-- ===== src/Tests/Settings.antt =====
-- Tests of the settings of a connection, of what it sends and of the calls that wait
-- (loudmouth/lm-connection.c).
use loudmouth.Base.{◌≡◌, refl, true, false, List, [], ◌∷◌, none, some, Text, codes}
use loudmouth.Proxy.{http}
use loudmouth.Node.{node, nil, attributes_string}
use loudmouth.Message.{Message}
use loudmouth.Message as M
use loudmouth.Connection.Link.{Link, state_number, closed, opened, authenticating, authenticated}
use loudmouth.Connection.Link as L
use loudmouth.Connection.Settings.{Settings, is_open, new_with_context}
use loudmouth.Connection.Holding.{
  Call, sets_ssl, sets_proxy, sets_disconnect_function, opens, comes_to, sets_server, sets_port,
  calls,
}
use loudmouth.Connection.Fixed.{address, calls-address}
use loudmouth.Connection.Sending.{message_text, message_text-header}
use loudmouth.Connection.Blocking.{aborts, authenticate_and_block, authenticate_and_block-outcome}

abbrev as_is : Text → Text
as_is name = name

abbrev uses : List Call
uses =
    sets_ssl (some 1)
    ∷ sets_proxy (some (4, http))
    ∷ opens
    ∷ comes_to opened
    ∷ sets_proxy none
    ∷ sets_ssl (some 2)
    ∷ sets_disconnect_function (some (some 9))
    ∷ []

abbrev up : Settings
up = record (new_with_context as_is (some (codes "a")) none).0 { state = opened }

calls-address_example :
    address (calls as_is up (sets_server (codes "b") ∷ sets_port 1 ∷ [])).0 ≡ address up
unfolding is_open
calls-address_example =
    calls-address as_is up (sets_server (codes "b") ∷ sets_port 1 ∷ []) refl refl

abbrev no_text : Text → Text
no_text text = []

abbrev header : Message
header = record {
  node = node (some (codes "stream:stream")) none false ((codes "version", codes "1.0") ∷ []) nil;
  type = M.stream;
  sub_type = M.not_set;
}

message_text-header_example : message_text no_text header ≡ codes "<stream:stream version=\"\">"
unfolding attributes_string
message_text-header_example =
    message_text-header no_text header ((codes "version", codes "1.0") ∷ []) refl (λ t. refl)
      (refl, tt)

abbrev trying : Link
trying = record L.new { state = authenticating }

authenticate_and_block-outcome_example :
    authenticate_and_block trying true (trying ∷ L.new ∷ []) ≡ aborts
unfolding L.new L.state_number
authenticate_and_block-outcome_example =
    authenticate_and_block-outcome trying L.new (trying ∷ []) [] refl (refl, tt) refl
