-- ===== src/Base/Decimal.antt =====
-- Numbers as `printf` writes them for `%u`, and for `%ld` if they are not negative.
use Prim.Native.Nat.{ℕ, zero, suc, ◌+◌, ◌-◌, ◌*◌, ◌/◌, ◌%◌, ◌<◌}
use mathlib.Core.Path.{◌≡◌, refl, sym, ap, ◌∙◌}
use mathlib.Core.Logic.{inl, inr}
use mathlib.Core.List.{[], ◌∷◌, ◌++◌}
use native.Mathlib.Omega.{arith}
use loudmouth.Base.Strings.{Text}
use loudmouth.Base.Tests.{ltb, if◌then◌else◌, Bool-cases}

-- The digits of a number with at most as many as the fuel; a number has no more digits than itself.
unfoldable pub digits : ℕ → ℕ → Text
digits zero n = []
digits (suc fuel) n =
    let front = digits fuel (n / 10) in
    if ltb n 10 then (b'0' + n) ∷ [] else front ++ (b'0' + n % 10) ∷ []

-- A `guint` has at most ten digits.
unfoldable pub decimal : ℕ → Text
unfolding digits
decimal n = digits 10 n

-- A `glong` that is not negative has at most twenty.
unfoldable pub long_decimal : ℕ → Text
unfolding digits
long_decimal n = digits 20 n

-- The number that digits are read as, behind those that have been read.
abbrev pub value_from : ℕ → Text → ℕ
value_from n [] = n
value_from n (c ∷ cs) = value_from (n * 10 + (c - b'0')) cs

pub value_from-append : (n : ℕ) (a b : Text) → value_from n (a ++ b) ≡ value_from (value_from n a) b
value_from-append n [] b = refl
value_from-append n (c ∷ a) b = value_from-append (n * 10 + (c - b'0')) a b

-- Powers of ten.
abbrev pub power : ℕ → ℕ
power zero = 1
power (suc n) = 10 * power n

pub digits-value_from : (fuel n : ℕ) → n < power fuel → value_from 0 (digits fuel n) ≡ n
unfolding digits
digits-value_from zero n h = omega (arith, h)
digits-value_from (suc fuel) n h = elim (Bool-cases (ltb n 10)) [
  | inl small ↦ rw small (omega arith)
  | inr large ↦
      let front = digits-value_from fuel (n / 10) (omega (arith, h)) in
      rw (large, value_from-append 0 (digits fuel (n / 10)) ((b'0' + n % 10) ∷ []), front)
        (omega arith)
]

-- Numbers of which the same digits are written are the same.
pub long_decimal-injective :
    (n m : ℕ)
    → n < 100000000000000000000
    → m < 100000000000000000000
    → long_decimal n ≡ long_decimal m
    → n ≡ m
unfolding long_decimal
long_decimal-injective n m h k e =
    sym (digits-value_from 20 n (omega (arith, h)))
    ∙ (ap (value_from 0) e ∙ digits-value_from 20 m (omega (arith, k)))
