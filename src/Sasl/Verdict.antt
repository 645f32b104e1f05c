-- ===== src/Sasl/Verdict.antt =====
-- What loudmouth/lm-sasl.c tells its result handler.
use loudmouth.Base.{◌≡◌, refl, Bool, true, false, List, [], ◌∷◌, ◌++◌, Option, none, some, Text}
use loudmouth.Message.{Message}
use loudmouth.Sasl.Machine.{is_foreign, success_cb}
use loudmouth.Sasl.{Sasl, Effect, sends, reports}

-- The verdict of the last call of the result handler.
last_report : List Effect → Option Bool
last_report [] = none
last_report (sends m ∷ es) = last_report es
last_report (reports verdict reason ∷ es) = elim (last_report es) [
  | none ↦ some verdict
  | some later ↦ some later
]

last_report-append :
    (es : List Effect) (verdict : Bool) (reason : Option Text)
    → last_report (es ++ reports verdict reason ∷ []) ≡ some verdict
unfolding last_report
last_report-append [] verdict reason = refl
last_report-append (sends m ∷ es) verdict reason = last_report-append es verdict reason
last_report-append (reports v r ∷ es) verdict reason = rw (last_report-append es verdict reason)

-- If a result handler is set, a success in the namespace of SASL ends with a report of success,
-- whatever mechanism was chosen and however far its exchange has got: also where an error has just
-- been reported because the server was too early.
success_cb_reports_success :
    (s : Sasl) (m : Message)
    → s.has_handler ≡ true
    → is_foreign m.node ≡ false
    → last_report (success_cb s m).1 ≡ some true
unfolding success_cb
success_cb_reports_success s m handled known =
    rw (known, success_cb, handled) (last_report-append _ true none)
