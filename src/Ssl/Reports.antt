-- ===== src/Ssl/Reports.antt =====
-- What the program is asked while a certificate is checked, and what its answers lead to:
-- loudmouth/lm-ssl-openssl.c and lm-ssl-gnutls.c.
use mathlib.Core.List.{append-nil, append_assoc}
use loudmouth.Base.{
  ◌≡◌, refl, ◌∙◌, Bool, true, false, Bool-cases, inl, inr, Option-cases, drop, not, ◌&&◌, List, [],
  ◌∷◌, ◌++◌, Option, none, some, if◌then◌else◌, Text, length, take, take-append, str_eq, arith,
}
use loudmouth.Ssl.{
  SslStatus, SslResponse, continues, SslBase, ask_if, ◌then_check◌, with_digest, mismatches,
}

-- A callback that answers by the problem, and keeps a record of what it is asked.
abbrev pub recording :
    (SslStatus → SslResponse) → List SslStatus → Text → SslStatus → List SslStatus × SslResponse
recording answer asked fingerprint status = (asked ++ status ∷ [], answer status)

abbrev pub listening :
    SslBase (List SslStatus) → (SslStatus → SslResponse) → SslBase (List SslStatus)
listening base answer = record base { func = recording answer }

-- What a check leaves but the object.
abbrev pub verdict : SslBase (List SslStatus) × List SslStatus × Bool → List SslStatus × Bool
verdict result = (result.1, result.2)

-- Whether all problems are answered by going on.
abbrev pub all_continue : (SslStatus → SslResponse) → List SslStatus → Bool
all_continue answer [] = true
all_continue answer (s ∷ ss) = continues (answer s) && all_continue answer ss

-- The problems up to the first that is not answered so, that one included.
abbrev pub up_to_stop : (SslStatus → SslResponse) → List SslStatus → List SslStatus
up_to_stop answer [] = []
up_to_stop answer (s ∷ ss) = s ∷ (if continues (answer s) then up_to_stop answer ss else [])

abbrev pub if_there : Bool → SslStatus → List SslStatus
if_there there status = if there then status ∷ [] else []

-- Whether a fingerprint is expected that is not that of the certificate.
abbrev pub is_other : Option Text → Text → Bool
is_other none digest = false
is_other (some expected) digest = not (str_eq (take (length digest) expected) digest)

pub mismatches_lem :
    {W : Type 0} (base : SslBase W) (digest : Text)
    → mismatches (with_digest base digest) (length digest)
      ≡ is_other base.expected_fingerprint digest
unfolding mismatches with_digest
mismatches_lem base digest = elim (Option-cases base.expected_fingerprint) [
  | inl absent ↦ rw absent
  | inr (expected, present) ↦
      rw (present, take-append digest (drop (length digest) base.fingerprint))
]

module _ (answer : SslStatus → SslResponse) where
  -- A check asks about some problems until one is answered by stopping.
  pub record Asks (check : List SslStatus → List SslStatus × Bool) (problems : List SslStatus)
      : Type 0 where
    pub asks :
        (w : List SslStatus)
        → check w ≡ (w ++ up_to_stop answer problems, all_continue answer problems)

  answered :
      (go_on : Bool) (status : SslStatus) (w : List SslStatus)
      → ◌≡◌ {A = List SslStatus × Bool}
          (w ++ status ∷ [], go_on)
          (w ++ status ∷ (if go_on then [] else []), go_on && true)
  answered true status w = refl
  answered false status w = refl

  pub ask_if_lem :
      (there : Bool) (base : SslBase (List SslStatus)) (status : SslStatus) (w : List SslStatus)
      → ask_if there (listening base answer) status w ≡ (
        w ++ up_to_stop answer (if_there there status),
        all_continue answer (if_there there status),
      )
  unfolding ask_if
  ask_if_lem false base status w = rw (append-nil w)
  ask_if_lem true base status w = answered (continues (answer status)) status w

  pub ask_if-Asks :
      (there : Bool) (base : SslBase (List SslStatus)) (status : SslStatus)
      → Asks (ask_if there (listening base answer) status) (if_there there status)
  ask_if-Asks there base status = record { asks = ask_if_lem there base status }

  pub up_to_stop-append :
      (p q : List SslStatus)
      → up_to_stop answer (p ++ q)
        ≡ up_to_stop answer p ++ (if all_continue answer p then up_to_stop answer q else [])
  up_to_stop-append [] q = refl
  up_to_stop-append (s ∷ p) q = ground (arith, up_to_stop-append p q)

  pub all_continue-append :
      (p q : List SslStatus)
      → all_continue answer (p ++ q) ≡ (all_continue answer p && all_continue answer q)
  all_continue-append [] q = refl
  all_continue-append (s ∷ p) q = ground (arith, all_continue-append p q)

  then_check_lem :
      (first second : List SslStatus → List SslStatus × Bool) (p q : List SslStatus)
      → Asks first p
      → Asks second q
      → (w : List SslStatus)
      → (first then_check second) w
        ≡ (w ++ up_to_stop answer (p ++ q), all_continue answer (p ++ q))
  then_check_lem first second p q h k w =
      rw (up_to_stop-append p q, all_continue-append p q, h.asks w)
        elim (Bool-cases (all_continue answer p)) [
          | inl on ↦ rw (
            on,
            k.asks (w ++ up_to_stop answer p),
            append_assoc w (up_to_stop answer p) (up_to_stop answer q),
          )
          | inr stopped ↦ rw (stopped, append-nil (up_to_stop answer p))
        ]

  pub then_check-Asks :
      {first second : List SslStatus → List SslStatus × Bool} {p q : List SslStatus}
      → Asks first p
      → Asks second q
      → Asks (first then_check second) (p ++ q)
  then_check-Asks {first} {second} {p} {q} h k = record {
    asks = then_check_lem first second p q h k;
  }

  verdict-if :
      (go_on : Bool) (x y : SslBase (List SslStatus) × List SslStatus × Bool)
      → verdict (if go_on then x else y) ≡ (if go_on then verdict x else verdict y)
  verdict-if true x y = refl
  verdict-if false x y = refl

  -- The same for a second part that changes the object.
  pub then_verdict :
      (base : SslBase (List SslStatus)) (first : List SslStatus → List SslStatus × Bool)
      (second : List SslStatus → SslBase (List SslStatus) × List SslStatus × Bool)
      (p q : List SslStatus)
      → Asks first p
      → Asks (λ w. verdict (second w)) q
      → Asks
          (λ w. verdict (if (first w).1 then second (first w).0 else (base, (first w).0, false)))
          (p ++ q)
  then_verdict base first second p q h k = record {
    asks = λ w.
        verdict-if (first w).1 (second (first w).0) (base, (first w).0, false)
        ∙ then_check_lem first (λ w. verdict (second w)) p q h k w;
  }
