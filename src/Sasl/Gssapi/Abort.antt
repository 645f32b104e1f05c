-- ===== src/Sasl/Gssapi/Abort.antt =====
-- When a challenge for GSSAPI aborts the program (loudmouth/lm-sasl.c).
use loudmouth.Base.{
  ◌≡◌, refl, ap, ◌∙◌, Bool, true, false, List, [], ◌∷◌, ◌++◌, Option, none, some, Text, codes, not,
  is_null,
}
use loudmouth.Node.{Node}
use loudmouth.Sasl.{Effect, Env, shown}
use loudmouth.Sasl.Gssapi.{
  Gss, Gssapi, GssapiState, not_gssapi, gssapi_started, gssapi_sent_auth_response, Initiated,
  init_error, continue_needed, established, Handled, aborts, handled, initiated, start_with,
  gssapi_start, start, respond, negotiate, continue_with, handle_in, handle_challenge,
  handle_challenges, wrapped, features, input_of,
}

abbrev pub is_aborted : {N X : Type 0} → Handled N X → Bool
is_aborted aborts = true
is_aborted (handled s effects result) = false

not_twice : (b : Bool) → not (not b) ≡ b
not_twice true = refl
not_twice false = refl

abbrev is_gssapi : GssapiState → Bool
is_gssapi not_gssapi = false
is_gssapi _ = true

module _ {N X : Type 0} (gss : Gss N X) (env : Env) where
  -- The program goes on, and GSSAPI with it.
  abbrev GoesOn : Handled N X → Type 0
  GoesOn aborts = ⊥
  GoesOn (handled s effects result) = is_gssapi s.state ≡ true

  respond-GoesOn :
      (r : Gssapi N X × List Effect × Option Text)
      → is_gssapi r.0.state ≡ true
      → GoesOn (respond gss env r)
  unfolding respond
  respond-GoesOn (s, effects, none) h = h
  respond-GoesOn (s, effects, some token) h = h

  initiated_state :
      (s : Gssapi N X) (i : Initiated X)
      → is_gssapi s.state ≡ true
      → is_gssapi (initiated gss env s i).0.state ≡ true
  unfolding initiated
  initiated_state s init_error h = h
  initiated_state s (continue_needed ctx token) h = h
  initiated_state s (established ctx token) h = refl

  continue_state :
      (s : Gssapi N X) (service : Option N) (input : Text)
      → is_gssapi s.state ≡ true
      → is_gssapi (continue_with gss env s service input).0.state ≡ true
  unfolding continue_with
  continue_state s none input h = h
  continue_state s (some service) input h =
      initiated_state s (gss.init_sec_context service s.gss_ctx input) h

  wrapped_state : (s : Gssapi N X) (token : Option Text) → (wrapped gss env s token).0 ≡ s
  unfolding wrapped
  wrapped_state s none = refl
  wrapped_state s (some token) = refl

  negotiate_state :
      (s : Gssapi N X) (capabilities : Option Text) → (negotiate gss env s capabilities).0 ≡ s
  unfolding negotiate
  negotiate_state s none = refl
  negotiate_state s (some capabilities) =
      wrapped_state s (gss.wrap s.gss_ctx (features gss env s.auth_params))

  handle_in-GoesOn :
      (state : GssapiState) (s : Gssapi N X) (input : Text)
      → is_gssapi state ≡ true
      → is_gssapi s.state ≡ true
      → GoesOn (handle_in gss env state s input)
  unfolding handle_in
  handle_in-GoesOn not_gssapi s input h k = cc
  handle_in-GoesOn gssapi_started s input h k =
      respond-GoesOn (continue_with gss env s s.gss_service input)
        (continue_state s s.gss_service input k)
  handle_in-GoesOn gssapi_sent_auth_response s input h k =
      respond-GoesOn (negotiate gss env s (gss.unwrap s.gss_ctx input)) (
        ap (λ (t : Gssapi N X). is_gssapi t.state) (negotiate_state s (gss.unwrap s.gss_ctx input))
        ∙ k)

  challenges-aborted :
      (h : Handled N X) (ns : List Node)
      → GoesOn h
      → is_aborted (handle_challenges gss env h ns) ≡ false
  unfolding handle_challenges handle_challenge
  challenges-aborted aborts ns h = absurd h
  challenges-aborted (handled s effects result) [] h = refl
  challenges-aborted (handled s effects result) (n ∷ ns) h =
      challenges-aborted (handle_challenge gss env s n) ns
        (handle_in-GoesOn s.state s (input_of gss env n) h h)

  -- The state after the start, by the name of the service.
  start_state :
      (s : Gssapi N X) (service : Option N)
      → s.state ≡ not_gssapi
      → is_gssapi (start_with gss env s service).0.state ≡ not (is_null service)
  unfolding start_with
  start_state s none h = ap is_gssapi h
  start_state s (some service) h =
      initiated_state
        (record s { gss_ctx = none; gss_service = some service; state = gssapi_started })
        (gss.init_sec_context service none []) refl

  first_in :
      (state : GssapiState) (s : Gssapi N X) (input : Text) (ns : List Node)
      → is_gssapi s.state ≡ is_gssapi state
      → is_aborted (handle_challenges gss env (handle_in gss env state s input) ns)
        ≡ not (is_gssapi state)
  unfolding handle_challenges handle_in
  first_in not_gssapi s input ns h = refl
  first_in gssapi_started s input ns h =
      challenges-aborted (handle_in gss env gssapi_started s input) ns
        (handle_in-GoesOn gssapi_started s input refl h)
  first_in gssapi_sent_auth_response s input ns h =
      challenges-aborted (handle_in gss env gssapi_sent_auth_response s input) ns
        (handle_in-GoesOn gssapi_sent_auth_response s input refl h)

  first_challenge :
      (s : Gssapi N X) (n : Node) (ns : List Node) (effects : List Effect) (result : Bool)
      → is_aborted (handle_challenges gss env (handled s effects result) (n ∷ ns))
        ≡ not (is_gssapi s.state)
  unfolding handle_challenges handle_challenge
  first_challenge s n ns effects result = first_in s.state s (input_of gss env n) ns refl

  -- After authentication by GSSAPI has been started, challenges of the server, one at least and
  -- whatever they are, abort the program exactly if the service's name could not be imported.
  pub handle_challenges-start :
      (s : Gssapi N X) (n : Node) (ns : List Node)
      → s.state ≡ not_gssapi
      → is_aborted (
          handle_challenges gss env
            (handled (start gss env s).0 (start gss env s).1 (start gss env s).2)
            (n ∷ ns))
        ≡ is_null (gss.import_name (codes "xmpp@" ++ shown s.server))
  unfolding start gssapi_start
  handle_challenges-start s n ns h =
      let name = gss.import_name (codes "xmpp@" ++ shown s.server) in
      first_challenge (start gss env s).0 n ns (start gss env s).1 (start gss env s).2
      ∙ (ap not (start_state s name h) ∙ not_twice (is_null name))
