-- ===== src/Utils/Ids.antt =====
-- Ids that are made one after the other: loudmouth/lm-utils.c.
use Prim.Native.Nat.{bit_and, min}
use Prim.Native.Nat
use mathlib.Core.List.{append_cancel_right}
use loudmouth.Base.{◌≡◌, ap, ◌∙◌, Text, ℕ, zero, suc, ◌+◌, ◌/◌, ◌%◌, ◌≤◌, ◌<◌, ◌≢◌, arith}
use loudmouth.Base.Decimal.{long_decimal, long_decimal-injective}
use loudmouth.Utils.{generate_id}

digits-le : (n a b : ℕ) → Nat.digits (λ b. zero) min n a b ≤ b
digits-le zero a b = omega arith
digits-le (suc n) zero b = omega arith
digits-le (suc n) (suc a) b =
    let front = digits-le n (suc a / 2) (b / 2) in
    let digit : min (suc a % 2) (b % 2) ≤ b % 2 = ground arith in omega (arith, front, digit)

bit_and-le : (a b : ℕ) → bit_and a b ≤ b
bit_and-le a b = rw (Nat.bit_and-bitwise a b) (digits-le a a b)

-- `last_id` after some calls.
abbrev pub after_calls : ℕ → ℕ → ℕ → ℕ → ℕ
after_calls zero last_id tv_sec tv_usec = last_id
after_calls (suc n) last_id tv_sec tv_usec =
    (generate_id (after_calls n last_id tv_sec tv_usec) tv_sec tv_usec).0

-- The id that a call makes after some others.
abbrev pub id_after : ℕ → ℕ → ℕ → ℕ → Text
id_after n last_id tv_sec tv_usec =
    (generate_id (after_calls n last_id tv_sec tv_usec) tv_sec tv_usec).1

after_calls_lem :
    (n last_id tv_sec tv_usec : ℕ)
    → last_id < 4294967296
    → after_calls n last_id tv_sec tv_usec ≡ (last_id + n) % 4294967296
unfolding generate_id
after_calls_lem zero last_id tv_sec tv_usec h = ground arith
after_calls_lem (suc n) last_id tv_sec tv_usec h =
    ap (λ l. (l + 1) % 4294967296) (after_calls_lem n last_id tv_sec tv_usec h) ∙ omega arith

generate_id-injective :
    (n m tv_sec tv_usec : ℕ)
    → n < 4294967296
    → m < 4294967296
    → tv_usec < 1000000
    → (generate_id n tv_sec tv_usec).1 ≡ (generate_id m tv_sec tv_usec).1
    → n ≡ m
unfolding generate_id
generate_id-injective n m tv_sec tv_usec hn hm hu e =
    let masked = bit_and-le tv_sec tv_usec in
    let sums =
      long_decimal-injective (bit_and tv_sec tv_usec + n) (bit_and tv_sec tv_usec + m)
        (omega (arith, masked, hn, hu)) (omega (arith, masked, hm, hu))
        (append_cancel_right (long_decimal (bit_and tv_sec tv_usec + n))
          (long_decimal (bit_and tv_sec tv_usec + m)) (long_decimal tv_usec) e) in
    omega (arith, sums)

-- Of the calls that are made at one time, whatever `last_id` was before, any two make different ids,
-- if they are among 2 to the 32 that follow each other.
pub generate_id-differs :
    (i j last_id tv_sec tv_usec : ℕ)
    → last_id < 4294967296
    → tv_usec < 1000000
    → i < 4294967296
    → j < 4294967296
    → i ≢ j
    → id_after i last_id tv_sec tv_usec ≢ id_after j last_id tv_sec tv_usec
generate_id-differs i j last_id tv_sec tv_usec h hu hi hj other e =
    let at_i = after_calls_lem i last_id tv_sec tv_usec h in
    let at_j = after_calls_lem j last_id tv_sec tv_usec h in
    let same =
      generate_id-injective (after_calls i last_id tv_sec tv_usec)
        (after_calls j last_id tv_sec tv_usec) tv_sec tv_usec (omega (arith, at_i))
        (omega (arith, at_j)) hu e in
    other (omega (arith, same, at_i, at_j, h, hi, hj))
