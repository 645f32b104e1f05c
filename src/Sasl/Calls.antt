-- ===== src/Sasl/Calls.antt =====
-- Runs of the callbacks of loudmouth/lm-sasl.c.
use loudmouth.Base.{Bool, List, [], ◌∷◌, ◌++◌, Option, Text}
use loudmouth.Message.{Message}
use loudmouth.Sasl.Machine.{features_cb, sasl_authenticate, challenge_cb, success_cb, failure_cb}
use loudmouth.Sasl.{AuthParameters, Sasl, Effect, Env}

-- A call from the connection, with what the outside gives for it.
pub data Call : Type 0 where
  features challenge success failure : Env → Message → Call
  begin : Env → AuthParameters → Option Text → Bool → Call

unfoldable pub call : Sasl → Call → Sasl × List Effect
call s (features env m) = let (s', es, r) = features_cb env s m in (s', es)
call s (challenge env m) = let (s', es, r) = challenge_cb env s m in (s', es)
call s (success env m) = let (s', es, r) = success_cb s m in (s', es)
call s (failure env m) = let (s', es, r) = failure_cb s m in (s', es)
call s (begin env params server has_handler) = sasl_authenticate env s params server has_handler

unfoldable pub calls : Sasl → List Call → Sasl × List Effect
unfolding call
calls s [] = (s, [])
calls s (c ∷ cs) = let (s', now) = call s c in let (s'', later) = calls s' cs in (s'', now ++ later)
