-- ===== src/Tests/Logins.antt =====
-- Tests of the model of authentication in loudmouth/lm-connection.c.
use loudmouth.Base.{
  ◌≡◌, ◌≤◌, ◌+◌, refl, true, false, List, [], ◌∷◌, Option, none, some, Text, codes, str_eq,
}
use loudmouth.Node.{Node, add_child, add_child_node, set_attribute}
use loudmouth.Node
use loudmouth.Message.{Message, iq, stream_features, new, new_with_sub_type, result}
use loudmouth.Sasl.{AuthParameters}
use loudmouth.Connection.Link.{Link, opened}
use loudmouth.Connection.Account.{Account, check_auth_type, create_auth_msg}
use loudmouth.Connection.Login.{times_told, waiting}
use loudmouth.Connection.Secure.{value_below, digest_text, create_auth_msg-check_auth_type}
use loudmouth.Connection.Told.{
  Call, authenticates, gets_auth_req_reply, gets_auth_reply, finishes_sasl, calls, times_asked,
  calls_tell,
}

abbrev link : Link
link = record {
  state = opened;
  stream_id = some (codes "s1");
  use_sasl = false;
  sasl = false;
  ssl = true;
  starttls_cb = false;
  socket = true;
  feature_ping = false;
  keep_alive_rate = 0;
  open_cb = none;
  disconnect_cb = true;
}

abbrev account : Account
account = record {
  link = link;
  server = some (codes "h");
  jid = some (codes "u@h");
  effective_jid = none;
  resource = none;
  sasl_params = none;
  tls_started = false;
  auth_cb = none;
}

abbrev user : AuthParameters
user = record { username = codes "u"; password = codes "p"; resource = codes "r" }

abbrev sha : Option Text → Text
sha none = []
sha (some t) = b'#' ∷ t

-- An offer of a digest and a password.
abbrev offer : Message
offer =
    let query = (add_child (Node.new (some (codes "query"))) (some (codes "digest")) none).0 in
    let both = (add_child query (some (codes "password")) none).0 in
    record {
      node = add_child_node (Node.new (some (codes "iq"))) both;
      type = iq;
      sub_type = result;
    }

create_auth_msg-check_auth_type_example :
    let m = create_auth_msg sha (codes "2") (some (codes "s1")) user (check_auth_type offer) in
    (value_below m (codes "username") ≡ some user.username)
    × (value_below m (codes "resource") ≡ some user.resource)
    × (value_below m (codes "digest") ≡ some (sha (digest_text (some (codes "s1")) user.password)))
    × (value_below m (codes "password") ≡ none)
unfolding Node.get_child add_child_node Node.new add_child str_eq
create_auth_msg-check_auth_type_example =
    create_auth_msg-check_auth_type sha (codes "2") (some (codes "s1")) user offer

digest_offered : (check_auth_type offer).digest ≡ true
unfolding check_auth_type add_child_node Node.new add_child str_eq
digest_offered = refl

-- Authenticating twice, and two answers more than that.
abbrev exchange : List Call
exchange =
    authenticates true true (codes "1") user
    ∷ gets_auth_req_reply true (codes "2") user offer
    ∷ finishes_sasl true false
    ∷ finishes_sasl true false
    ∷ authenticates true true (codes "3") user
    ∷ gets_auth_reply (new_with_sub_type (codes "3") none iq result)
    ∷ gets_auth_reply (new_with_sub_type (codes "3") none iq result)
    ∷ []

calls_tell_example :
    times_told (calls sha account exchange).1 ≤ waiting account.auth_cb + times_asked exchange
calls_tell_example = calls_tell sha account exchange

-- Features without StartTLS.
abbrev features : Message
features = new (codes "4") none stream_features
