-- ===== src/Sasl/Ready.antt =====
-- The expected answer of the server in loudmouth/lm-sasl.c is there whenever it is compared.
use loudmouth.Base.{
  ◌≡◌, ◌≢◌, refl, Bool, true, false, List, [], ◌∷◌, Option, none, some, arith, Text, codes,
  opt_str_eq, if◌then◌else◌, Bool-cases, Option-cases, inl, inr,
}
use loudmouth.Node.{Node, find_child, get_value}
use loudmouth.Message.{Message}
use loudmouth.Sasl.Challenge.{Table, Outcome, parsed, failed, out_of_fuel, challenge_to_hash}
use loudmouth.Sasl.Calls.{Call, features, challenge, success, failure, begin, call, calls}
use loudmouth.Sasl.Digest.{
  prepare_with, prepare_response, send_response, send_initial_response, check_with,
  check_server_response,
}
use loudmouth.Sasl.Machine.{
  new, set_auth_type, start, authenticate, features_cb, sasl_authenticate, answer_challenge,
  handle_challenge, challenge_cb, success_cb, failure_cb,
}
use loudmouth.Sasl.{
  type_plain, type_digest, AuthState, digest_md5_started, digest_md5_sent_auth_response,
  digest_md5_sent_final_response, AuthParameters, Sasl, Effect, Env, report,
}

-- The text that `strcmp` reads in the check of the server's answer is there.
abbrev pub HasExpected : AuthState → Option Text → Type 0
HasExpected digest_md5_sent_auth_response rspauth = rspauth ≢ none
HasExpected digest_md5_sent_final_response rspauth = rspauth ≢ none
HasExpected _ rspauth = Unit {0}

abbrev pub IsReady : Sasl → Type 0
IsReady s = HasExpected s.state s.digest_md5_rspauth

start-IsReady : (env : Env) (s : Sasl) → IsReady s → IsReady (start env s).0
unfolding start
start-IsReady env s h = ground arith

authenticate-IsReady : (env : Env) (s : Sasl) → IsReady s → IsReady (authenticate env s).0
unfolding authenticate
authenticate-IsReady env s h = ground (
  arith,
  start-IsReady env (record s { auth_type = type_digest }) h,
  start-IsReady env (record s { auth_type = type_plain }) h,
)

set_auth_type-IsReady : (s : Sasl) (m : Node) → IsReady s → IsReady (set_auth_type s m).0
unfolding set_auth_type
set_auth_type-IsReady s m h = ground arith

features_cb-IsReady :
    (env : Env) (s : Sasl) (m : Message) → IsReady s → IsReady (features_cb env s m).0
unfolding features_cb
features_cb-IsReady env s m h =
    elim (Option-cases (find_child m.node (some (codes "mechanisms")))) [
      | inl e ↦ rw (e, features_cb) h
      | inr (mechanisms, e) ↦
          let started = record s { features_received = true } in
          let chosen = set_auth_type-IsReady started mechanisms h in
          rw (e, features_cb)
            (ground
              (arith, chosen, authenticate-IsReady env (set_auth_type started mechanisms).0 chosen))
    ]

sasl_authenticate-IsReady :
    (env : Env) (s : Sasl) (params : AuthParameters) (server : Option Text) (has_handler : Bool)
    → IsReady s
    → IsReady (sasl_authenticate env s params server has_handler).0
unfolding sasl_authenticate
sasl_authenticate-IsReady env s params server has_handler h = ground (
  arith,
  authenticate-IsReady env
      (record s { auth_params = some params; server = server; has_handler = has_handler }) h,
)

-- A response that is there comes with the answer expected from the server.
abbrev Prepared : Sasl → Sasl × List Effect × Option Text → Type 0
Prepared s (s', es, none) = (s'.state ≡ s.state) × (s'.digest_md5_rspauth ≡ s.digest_md5_rspauth)
Prepared s (s', es, some t) = s'.digest_md5_rspauth ≢ none

prepare_with-Prepared :
    (env : Env) (s : Sasl) (t : Table) (params : Option AuthParameters) (challenge : Option Text)
    → Prepared s (prepare_with env s t params challenge)
unfolding prepare_with
prepare_with-Prepared env s t none c = (refl, refl)
prepare_with-Prepared env s t (some params) none = (refl, refl)
prepare_with-Prepared env s t (some params) (some c) = λ e. cc

HasExpected-some :
    (st : AuthState) (rspauth : Option Text) → rspauth ≢ none → HasExpected st rspauth
HasExpected-some digest_md5_sent_auth_response rspauth h = h
HasExpected-some digest_md5_sent_final_response rspauth h = h
HasExpected-some _ rspauth h = tt

if-IsReady :
    (b : Bool) (x y : Sasl × List Effect × Bool)
    → IsReady x.0
    → IsReady y.0
    → IsReady (if b then x else y).0
if-IsReady true x y h k = h
if-IsReady false x y h k = k

send_response-IsReady :
    (env : Env) (s : Sasl) (r : Sasl × List Effect × Option Text)
    → s.state ≡ digest_md5_started
    → Prepared s r
    → IsReady (send_response env r).0
unfolding send_response
send_response-IsReady env s (s', es, none) h p = rw (p.0, h) tt
send_response-IsReady env s (s', es, some t) h p =
    if-IsReady (env.send _) _ _ p (HasExpected-some s'.state s'.digest_md5_rspauth p)

opt_str_eq-ne-none : (o : Option Text) (t : Text) → opt_str_eq o t ≡ true → o ≢ none
opt_str_eq-ne-none none t h = cc
opt_str_eq-ne-none (some x) t h = λ e. cc

check_with-IsReady :
    (env : Env) (s : Sasl) (answer : Option Text) → IsReady s → IsReady (check_with env s answer).0
unfolding check_with
check_with-IsReady env s none h = h
check_with-IsReady env s (some rspauth) h =
    elim (Bool-cases (opt_str_eq s.digest_md5_rspauth rspauth)) [
      | inl e ↦ rw (e, check_with) (if-IsReady (env.send _) _ _ (opt_str_eq-ne-none _ rspauth e) h)
      | inr e ↦ rw (e, check_with) h
    ]

answer_challenge-IsReady :
    (env : Env) (s : Sasl) (st : AuthState) (t : Table)
    → s.state ≡ st
    → IsReady s
    → IsReady (answer_challenge env st s t).0
unfolding answer_challenge send_initial_response prepare_response check_server_response
answer_challenge-IsReady env s digest_md5_started t e h =
    send_response-IsReady env s _ e (prepare_with-Prepared env s t s.auth_params _)
answer_challenge-IsReady env s digest_md5_sent_auth_response t e h = check_with-IsReady env s _ h
answer_challenge-IsReady env s _ t e h = h

handle_challenge-IsReady :
    (env : Env) (s : Sasl) (n : Node) → IsReady s → IsReady (handle_challenge env s n).0
unfolding handle_challenge
handle_challenge-IsReady env s n h = elim (Option-cases (get_value n)) [
  | inl e ↦ rw (e, handle_challenge) h
  | inr (encoded, e) ↦
      rw (e, handle_challenge)
        (answered (challenge_to_hash env.isspace (env.base64_decode encoded)))
]
  where
    answered :
        (o : Outcome)
        → IsReady
            (elim o as (λ o. Sasl × List Effect × Bool) [
              | parsed t ↦ answer_challenge env s.state s t
              | failed ↦ (s, report s false (some (codes "server error")), false)
              | out_of_fuel ↦ (s, report s false (some (codes "server error")), false)
            ]).0
    answered (parsed t) = answer_challenge-IsReady env s s.state t refl h
    answered failed = h
    answered out_of_fuel = h

challenge_cb-IsReady :
    (env : Env) (s : Sasl) (m : Message) → IsReady s → IsReady (challenge_cb env s m).0
unfolding challenge_cb
challenge_cb-IsReady env s m h = ground (arith, h, handle_challenge-IsReady env s m.node h)

success_cb_keeps : (s : Sasl) (m : Message) → (success_cb s m).0 ≡ s
unfolding success_cb
success_cb_keeps s m = ground arith

failure_cb_keeps : (s : Sasl) (m : Message) → (failure_cb s m).0 ≡ s
unfolding failure_cb
failure_cb_keeps s m = ground arith

call-IsReady : (s : Sasl) (c : Call) → IsReady s → IsReady (call s c).0
unfolding call
call-IsReady s (features env m) h = features_cb-IsReady env s m h
call-IsReady s (challenge env m) h = challenge_cb-IsReady env s m h
call-IsReady s (success env m) h = rw (success_cb_keeps s m) h
call-IsReady s (failure env m) h = rw (failure_cb_keeps s m) h
call-IsReady s (begin env params server has_handler) h =
    sasl_authenticate-IsReady env s params server has_handler h

calls-IsReady_lem : (s : Sasl) (cs : List Call) → IsReady s → IsReady (calls s cs).0
unfolding calls
calls-IsReady_lem s [] h = h
calls-IsReady_lem s (c ∷ cs) h = calls-IsReady_lem (call s c).0 cs (call-IsReady s c h)

-- After any sequence of stanzas and of calls of lm_sasl_authenticate, in any order, an exchange
-- that has sent its response has an expected answer of the server: the comparison in
-- sasl_digest_md5_check_server_response never reads through NULL.
pub calls-IsReady : (cs : List Call) → IsReady (calls new cs).0
unfolding new
calls-IsReady cs = calls-IsReady_lem new cs tt
