-- ===== src/Ping/Silence.antt =====
-- When loudmouth/lm-feature-ping.c signals a time-out.
use loudmouth.Base.{
  ℕ, suc, ◌+◌, ◌-◌, ◌^◌, ◌<◌, ◌≡◌, refl, ap, ◌∙◌, Bool, true, false, List, [], ◌∷◌, ◌++◌, Option,
  arith, Text, ltb, if◌then◌else◌, length,
}
use loudmouth.Message.{Message}
use loudmouth.Ping.{
  Ping, Effect, timed_out, sends, wrapped, keep_alive_reply, ping_message, send_keep_alive,
}

-- The timer runs out once for each id, and no reply comes in between.
unfoldable pub silence : Option Text → Ping → List Text → Ping × List Effect
unfolding send_keep_alive
silence server p [] = (p, [])
silence server p (id ∷ ids) =
    let (p', now) = send_keep_alive id server p in
    let (p'', later) = silence server p' ids in (p'', now ++ later)

pub time_outs : List Effect → ℕ
time_outs [] = 0
time_outs (timed_out ∷ es) = suc (time_outs es)
time_outs (_ ∷ es) = time_outs es

pub pings : List Effect → ℕ
pings [] = 0
pings (sends m ∷ es) = suc (pings es)
pings (_ ∷ es) = pings es

wrapped_small : (n : ℕ) → n < 2 ^ 32 → wrapped n ≡ n
wrapped_small n h = omega (arith, h)

-- What one run of the timer does, by whether it signals.
abbrev one : Bool → Message → List Effect
one signals m = (if signals then timed_out ∷ [] else []) ++ sends m ∷ []

time_outs-one :
    (signals : Bool) (m : Message) (es : List Effect)
    → time_outs (one signals m ++ es) ≡ (if signals then 1 else 0) + time_outs es
unfolding time_outs
time_outs-one true m es = omega arith
time_outs-one false m es = omega arith

pings-one :
    (signals : Bool) (m : Message) (es : List Effect) → pings (one signals m ++ es) ≡ suc (pings es)
unfolding pings
pings-one true m es = refl
pings-one false m es = refl

-- The count goes on by one where the counter is past three.
counted :
    (c c' n left : ℕ)
    → c' ≡ c + 1
    → left ≡ (c' + n - 3) - (c' - 3)
    → (if ltb 3 c' then 1 else 0) + left ≡ (c + suc n - 3) - (c - 3)
counted c c' n left h k = ground (arith, h, k)

silence_lem :
    (server : Option Text) (ids : List Text) (p : Ping)
    → p.keep_alive_counter + length ids < 2 ^ 32
    → (time_outs (silence server p ids).1
        ≡ (p.keep_alive_counter + length ids - 3) - (p.keep_alive_counter - 3))
      × (pings (silence server p ids).1 ≡ length ids)
unfolding silence send_keep_alive time_outs pings
silence_lem server [] p h = (omega arith, refl)
silence_lem server (id ∷ ids) p h =
    let c' = wrapped (p.keep_alive_counter + 1) in
    let next : c' ≡ p.keep_alive_counter + 1 =
      wrapped_small (p.keep_alive_counter + 1) (omega (arith, h)) in
    let later = (silence server (send_keep_alive id server p).0 ids).1 in
    let (given_up, sent) =
      silence_lem server ids (send_keep_alive id server p).0 (omega (arith, h, next)) in
    (
      time_outs-one (ltb 3 c') (ping_message id server) later
          ∙ counted p.keep_alive_counter c' (length ids) (time_outs later) next given_up,
      pings-one (ltb 3 c') (ping_message id server) later ∙ ap suc sent,
    )

-- After a reply, a silence in which the timer runs out n times sends n pings, and signals a time-out
-- n - 3 times: not before the fourth ping in a row without a reply, and then with every further one
-- for as long as the timer runs. The silence is short enough for the counter of 32 bits.
pub silence-keep_alive_reply :
    (server : Option Text) (p : Ping) (ids : List Text)
    → length ids < 2 ^ 32
    → let es = (silence server (keep_alive_reply p).0 ids).1 in
      (time_outs es ≡ length ids - 3) × (pings es ≡ length ids)
unfolding keep_alive_reply
silence-keep_alive_reply server p ids h =
    let (given_up, sent) =
      silence_lem server ids (record p { keep_alive_counter = 0 }) (omega (arith, h)) in
    (given_up ∙ omega arith, sent)
