-- ===== src/Sasl/Machine.antt =====
-- The callbacks of loudmouth/lm-sasl.c: what it does on each stanza of the exchange.
use loudmouth.Base.{
  Bool, true, false, not, ◌&&◌, List, [], ◌∷◌, ◌++◌, Option, none, some, Text, codes, str_eq,
  opt_str_eq, if◌then◌else◌,
}
use loudmouth.Node.{
  Node, Children, nil, cons, get_attribute, set_attributes, get_value, set_value, find_child,
  children_of,
}
use loudmouth.Message.{Message, auth}
use loudmouth.Message
use loudmouth.Handler.{HandlerResult, remove_message, allow_more_handlers}
use loudmouth.Sasl.Challenge.{Table, parsed, failed, out_of_fuel, challenge_to_hash}
use loudmouth.Sasl.Digest.{send_initial_response, check_server_response}
use loudmouth.Sasl.{
  AuthType, no_type, type_plain, type_digest, is_plain, is_digest, AuthState, no_mech,
  plain_started, digest_md5_started, digest_md5_sent_auth_response, digest_md5_sent_final_response,
  AuthParameters, Sasl, Effect, sends, Env, sasl_auth_ns, report,
}

-- `lm_sasl_new`
unfoldable pub new : Sasl
new = record {
  auth_type = no_type;
  state = no_mech;
  auth_params = none;
  server = none;
  digest_md5_rspauth = none;
  features_received = false;
  start_auth = false;
  has_handler = false;
}

-- `!ns || strcmp (ns, XMPP_NS_SASL_AUTH) != 0`, of a node's namespace.
abbrev pub is_foreign : Node → Bool
is_foreign n = not (opt_str_eq (get_attribute n (some (codes "xmlns"))) sasl_auth_ns)

abbrev pub server_error : Option Text
server_error = some (codes "server error")

-- The states in which a DIGEST-MD5 exchange may succeed.
abbrev pub is_digest_sent : AuthState → Bool
is_digest_sent digest_md5_sent_auth_response = true
is_digest_sent digest_md5_sent_final_response = true
is_digest_sent _ = false

abbrev pub is_plain_started : AuthState → Bool
is_plain_started plain_started = true
is_plain_started _ = false

-- One child of `<mechanisms>`, in the loop of `sasl_set_auth_type`.
unfoldable pub add_mechanism : AuthType → Option Text → AuthType
add_mechanism t none = t
add_mechanism t (some name) =
    if str_eq name (codes "PLAIN")
    then record t { plain = true }
    else if str_eq name (codes "DIGEST-MD5")
    then record t { digest = true }
    else if str_eq name (codes "GSSAPI")
    then record t { gssapi = true }
    else t

unfoldable pub mechanism_types : AuthType → Children → AuthType
mechanism_types t nil = t
mechanism_types t (cons m rest) = mechanism_types (add_mechanism t (get_value m)) rest

-- `sasl_set_auth_type`
unfoldable pub set_auth_type : Sasl → Node → Sasl × Bool
unfolding mechanism_types add_mechanism
set_auth_type s mechanisms =
    if is_foreign mechanisms
    then (record s { auth_type = no_type }, false)
    else (record s { auth_type = mechanism_types no_type (children_of mechanisms) }, true)

module _ (env : Env) where
  -- The credentials of PLAIN: two texts, each behind a zero byte.
  abbrev pub plain_credentials : AuthParameters → Text
  plain_credentials params = 0 ∷ (params.username ++ (0 ∷ params.password))

  -- The `<auth>` message of `sasl_start` with the name of the mechanism, and sending it.
  abbrev send_auth : Sasl → Node → Option Text → Sasl × List Effect × Bool
  send_auth s root mech =
      let m = Message.new env.id none auth in
      let full = record m {
        node =
            set_attributes root
              ((codes "xmlns", some sasl_auth_ns) ∷ (codes "mechanism", mech) ∷ []);
      } in
      (s, sends full ∷ [], env.send full)

  -- `sasl_start`
  unfoldable pub start : Sasl → Sasl × List Effect × Bool
  unfolding set_value
  start s =
      let root = (Message.new env.id none auth).node in
      let plain : Sasl × List Effect × Bool = elim s.auth_params [
        | none ↦ (
          record s { state = plain_started },
          report s false (some (codes "no username/password provided")),
          false,
        )
        | some params ↦
            send_auth (record s { state = plain_started })
              (set_attributes (set_value root (some (env.base64_encode (plain_credentials params))))
                ((codes "xmlns:ga", some (codes "http://www.google.com/talk/protocol/auth"))
                  ∷ (codes "ga:client-uses-full-bind-result", some (codes "true"))
                  ∷ []))
              (some (codes "PLAIN"))
      ] in
      if is_plain s.auth_type
      then plain
      else if is_digest s.auth_type
      then send_auth (record s { state = digest_md5_started }) root (some (codes "DIGEST-MD5"))
      else send_auth s root none

  -- `sasl_authenticate`
  unfoldable pub authenticate : Sasl → Sasl × List Effect × Bool
  authenticate s =
      let t = s.auth_type in
      if not t.plain && not t.digest && not t.gssapi
      then (s, [], false)
      else if t.digest
      then start (record s { auth_type = type_digest })
      else if t.plain
      then start (record s { auth_type = type_plain })
      else (s, [], false)

  -- `sasl_features_cb`
  unfoldable pub features_cb : Sasl → Message → Sasl × List Effect × HandlerResult
  features_cb s m = elim (find_child m.node (some (codes "mechanisms"))) [
    | none ↦ (s, [], allow_more_handlers)
    | some mechanisms ↦
        let chosen = (set_auth_type (record s { features_received = true }) mechanisms).0 in
        let begun = authenticate chosen in
        if chosen.start_auth
        then (begun.0, begun.1, allow_more_handlers)
        else (chosen, [], allow_more_handlers)
  ]

  -- `lm_sasl_authenticate`
  unfoldable pub sasl_authenticate : Sasl → AuthParameters → Option Text → Bool → Sasl × List Effect
  sasl_authenticate s params server has_handler =
      let ready = record s {
        auth_params = some params;
        server = server;
        has_handler = has_handler;
      } in
      let begun = authenticate ready in
      if ready.features_received
      then (begun.0, begun.1)
      else (record ready { start_auth = true }, [])

  -- The `switch` of `sasl_digest_md5_handle_challenge`, on a parsed challenge.
  unfoldable pub answer_challenge : AuthState → Sasl → Table → Sasl × List Effect × Bool
  answer_challenge digest_md5_started s h =
      let (s', es, sent) = send_initial_response env s h in (s', es, true)
  answer_challenge digest_md5_sent_auth_response s h =
      let (s', es, sent) = check_server_response env s h in (s', es, true)
  answer_challenge _ s h = (s, report s false server_error, false)

  -- `sasl_digest_md5_handle_challenge`
  unfoldable pub handle_challenge : Sasl → Node → Sasl × List Effect × Bool
  handle_challenge s n = elim (get_value n) [
    | none ↦ (s, [], false)
    | some encoded ↦ elim (challenge_to_hash env.isspace (env.base64_decode encoded)) [
      | parsed h ↦ answer_challenge s.state s h
      | failed ↦ (s, report s false server_error, false)
      | out_of_fuel ↦ (s, report s false server_error, false)
    ]
  ]

  -- `sasl_challenge_cb`
  unfoldable pub challenge_cb : Sasl → Message → Sasl × List Effect × HandlerResult
  challenge_cb s m =
      let (s', es, handled) = handle_challenge s m.node in
      if is_foreign m.node
      then (s, [], allow_more_handlers)
      else if is_plain s.auth_type
      then (s, report s false server_error, remove_message)
      else if is_digest s.auth_type
      then (s', es, remove_message)
      else (s, [], remove_message)

-- What the `switch` of `sasl_success_cb` reports before the success.
unfoldable pub early_success : Sasl → List Effect
early_success s =
    if is_plain s.auth_type
    then if not (is_plain_started s.state) then report s false server_error else []
    else if is_digest s.auth_type
    then if not (is_digest_sent s.state) then report s false server_error else []
    else []

-- `sasl_success_cb`
unfoldable pub success_cb : Sasl → Message → Sasl × List Effect × HandlerResult
unfolding early_success
success_cb s m =
    if is_foreign m.node
    then (s, [], allow_more_handlers)
    else (s, early_success s ++ report s true none, remove_message)

-- The reason that `sasl_failure_cb` finds: the value of the first child.
unfoldable pub failure_reason : Children → Text
failure_reason nil = codes "unknown reason"
failure_reason (cons c rest) = elim (get_value c) [ none ↦ codes "unknown reason" | some r ↦ r ]

-- `sasl_failure_cb`
unfoldable pub failure_cb : Sasl → Message → Sasl × List Effect × HandlerResult
unfolding failure_reason
failure_cb s m =
    if is_foreign m.node
    then (s, [], allow_more_handlers)
    else (s, report s false (some (failure_reason (children_of m.node))), remove_message)
