-- ===== src/Sasl/Gssapi.antt =====
-- GSSAPI in loudmouth/lm-sasl.c, which is compiled with HAVE_GSSAPI. The library is a parameter;
-- `gss_release_buffer` is documented to succeed on the buffers that it is given here.
pub mod Abort
use loudmouth.Base.{
  ℕ, ◌≡◌, ◌≢◌, refl, ap, ◌∙◌, Bool, true, false, List, [], ◌∷◌, ◌++◌, Option, none, some, Text,
  codes, if◌then◌else◌,
}
use loudmouth.Node.{Node, set_attributes, get_value, set_value}
use loudmouth.Message.{Message, auth, response}
use loudmouth.Message
use loudmouth.Sasl.{AuthParameters, Effect, sends, reports, Env, sasl_auth_ns, shown}

-- What `gss_init_sec_context` comes to: an error, or a context and a token for the other side, with
-- the context established or more to come.
pub data Initiated (X : Type 0) : Type 0 where
  init_error : Initiated X
  continue_needed established : X → Text → Initiated X

-- The calls of the library; `none` is an error.
pub record Gss (N X : Type 0) : Type 0 where
  pub import_name : Text → Option N
  pub init_sec_context : N → Option X → Text → Initiated X
  pub unwrap : Option X → Text → Option Text
  pub wrap : Option X → Text → Option Text

-- Of `SaslAuthState`, the states of GSSAPI, and all others.
pub data GssapiState : Type 0 where
  not_gssapi gssapi_started gssapi_sent_auth_response : GssapiState

-- Of `struct _LmSASL`, what GSSAPI uses.
pub record Gssapi (N X : Type 0) : Type 0 where
  pub state : GssapiState
  pub auth_params : AuthParameters
  pub server : Option Text
  pub has_handler : Bool
  pub gss_ctx : Option X
  pub gss_service : Option N

-- What handling a challenge comes to: `g_assert_not_reached`, or the new state.
pub data Handled (N X : Type 0) : Type 0 where
  aborts : Handled N X
  handled : Gssapi N X → List Effect → Bool → Handled N X

module _ {N X : Type 0} where
  -- `sasl_gssapi_fail`, without the log.
  unfoldable pub fail : Gssapi N X → List Effect
  fail s = if s.has_handler then reports false (some (codes "GSSAPI failure")) ∷ [] else []

  -- `sasl_gssapi_finish`, after which both pointers are released.
  unfoldable pub finish : Gssapi N X → Gssapi N X
  finish s = record s { gss_ctx = none; gss_service = none }

  -- The case for GSSAPI of `sasl_success_cb`, by the state; the other one that would do is never
  -- reached.
  unfoldable pub early_success : GssapiState → Gssapi N X → Gssapi N X × List Effect
  unfolding finish
  early_success gssapi_sent_auth_response s = (s, [])
  early_success _ s =
      (finish s, if s.has_handler then reports false (some (codes "server error")) ∷ [] else [])

module _ {N X : Type 0} (gss : Gss N X) (env : Env) where
  -- What follows `gss_init_sec_context`: the state, and the token, if there was no error.
  unfoldable pub initiated : Gssapi N X → Initiated X → Gssapi N X × List Effect × Option Text
  unfolding fail
  initiated s init_error = (s, fail s, none)
  initiated s (continue_needed ctx token) = (record s { gss_ctx = some ctx }, [], some token)
  initiated s (established ctx token) =
      (record s { gss_ctx = some ctx; state = gssapi_sent_auth_response }, [], some token)

  -- `sasl_gssapi_start` with the service's name: the value of the node, if it is set.
  unfoldable pub start_with : Gssapi N X → Option N → Gssapi N X × List Effect × Option Text
  unfolding initiated fail
  start_with s none = (record s { gss_ctx = none; gss_service = none }, fail s, none)
  start_with s (some service) =
      let named = record s { gss_ctx = none; gss_service = some service; state = gssapi_started } in
      let (s', effects, token) = initiated named (gss.init_sec_context service none []) in
      (s', effects, elim token [ none ↦ none | some t ↦ some (env.base64_encode t) ])

  -- `sasl_gssapi_start`, and `sasl_gssapi_get_creds` in it.
  unfoldable pub gssapi_start : Gssapi N X → Gssapi N X × List Effect × Option Text
  unfolding start_with
  gssapi_start s = start_with s (gss.import_name (codes "xmpp@" ++ shown s.server))

  -- The `<auth>` message.
  abbrev pub auth_message : Option Text → Message
  auth_message value =
      let m = Message.new env.id none auth in
      let valued : Node = elim value [ none ↦ m.node | some v ↦ set_value m.node (some v) ] in
      record m {
        node =
            set_attributes valued (
              (codes "xmlns", some sasl_auth_ns) ∷ (codes "mechanism", some (codes "GSSAPI")) ∷ []);
      }

  -- `sasl_start` for GSSAPI: what `sasl_gssapi_start` returns is not looked at.
  unfoldable pub start : Gssapi N X → Gssapi N X × List Effect × Bool
  unfolding gssapi_start set_value
  start s =
      let (s', effects, value) = gssapi_start s in
      (s', effects ++ sends (auth_message value) ∷ [], env.send (auth_message value))

  -- A token as it is written, nothing if it is `NULL`.
  abbrev pub token_text : Text → Text
  token_text [] = []
  token_text (c ∷ cs) = env.base64_encode (c ∷ cs)

  -- The `<response>` message.
  abbrev pub response_message : Text → Message
  response_message token =
      let m = Message.new env.id none response in
      record m {
        node =
            set_value (set_attributes m.node ((codes "xmlns", some sasl_auth_ns) ∷ []))
              (some (token_text token));
      }

  -- The end of `sasl_gssapi_handle_challenge`: nothing is sent after an error.
  unfoldable pub respond : Gssapi N X × List Effect × Option Text → Handled N X
  respond (s, effects, none) = handled s effects false
  respond (s, effects, some token) =
      handled s (effects ++ sends (response_message token) ∷ []) (env.send (response_message token))

  -- The features that are asked for: no security layer and the largest size, with the user's name.
  abbrev pub features : AuthParameters → Text
  features params = 1 ∷ 255 ∷ 255 ∷ 255 ∷ params.username

  -- After `gss_wrap`.
  unfoldable pub wrapped : Gssapi N X → Option Text → Gssapi N X × List Effect × Option Text
  unfolding fail
  wrapped s none = (s, fail s, none)
  wrapped s (some token) = (s, [], some token)

  -- The branch for the server's capabilities, which are unwrapped and dropped.
  unfoldable pub negotiate : Gssapi N X → Option Text → Gssapi N X × List Effect × Option Text
  unfolding wrapped
  negotiate s none = (s, fail s, none)
  negotiate s (some capabilities) = wrapped s (gss.wrap s.gss_ctx (features s.auth_params))

  -- The next step of the context, for which there is a name of the service.
  unfoldable pub continue_with :
      Gssapi N X → Option N → Text → Gssapi N X × List Effect × Option Text
  unfolding initiated
  continue_with s none input = (s, fail s, none)
  continue_with s (some service) input = initiated s (gss.init_sec_context service s.gss_ctx input)

  unfoldable pub handle_in : GssapiState → Gssapi N X → Text → Handled N X
  unfolding respond continue_with negotiate
  handle_in gssapi_started s input = respond (continue_with s s.gss_service input)
  handle_in gssapi_sent_auth_response s input = respond (negotiate s (gss.unwrap s.gss_ctx input))
  handle_in not_gssapi s input = aborts

  -- The text of a challenge, decoded.
  abbrev pub input_of : Node → Text
  input_of n = elim (get_value n) [ none ↦ [] | some encoded ↦ env.base64_decode encoded ]

  -- `sasl_gssapi_handle_challenge`
  unfoldable pub handle_challenge : Gssapi N X → Node → Handled N X
  unfolding handle_in
  handle_challenge s n = handle_in s.state s (input_of n)

  -- Challenges, one after the other.
  unfoldable pub handle_challenges : Handled N X → List Node → Handled N X
  unfolding handle_challenge
  handle_challenges aborts ns = aborts
  handle_challenges (handled s effects result) [] = handled s effects result
  handle_challenges (handled s effects result) (n ∷ ns) =
      handle_challenges (handle_challenge s n) ns
