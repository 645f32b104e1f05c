-- ===== src/Base/Strings.antt =====
-- C strings (`gchar *`) as lists of bytes, without the terminating zero. `NULL` is `none`.
use Prim.Native.Nat.{ℕ}
use Prim.Native.Char.{code}
use Prim.Native.String.{String}
use mathlib.Core.Path.{◌≡◌, refl}
use mathlib.Core.Logic.{◌↔◌}
use mathlib.Core.Bool.{Bool, true, false, ◌&&◌}
use mathlib.Core.List.{List, [], ◌∷◌, ◌++◌}
use mathlib.Core.Option.{Option, none, some}
use native.Mathlib.Omega.{arith}
use loudmouth.Base.Tests.{◌==◌, if◌then◌else◌}
use loudmouth.Base.Lists.{length, drop}

abbrev pub Text : Type 0
Text = List ℕ

-- The bytes of a literal.
abbrev pub codes : String → Text
codes String.[] = []
codes (String.◌∷◌ c s) = code c ∷ codes s

-- `strcmp (a, b) == 0`
unfoldable pub str_eq : Text → Text → Bool
str_eq [] [] = true
str_eq (x ∷ xs) (y ∷ ys) = x == y && str_eq xs ys
str_eq _ _ = false

pub str_eq_iff : (a b : Text) → (str_eq a b ≡ true) ↔ (a ≡ b)
unfolding str_eq
str_eq_iff (x ∷ a) (y ∷ b) = ground (arith, str_eq_iff a b)
str_eq_iff _ _ = ground arith

pub str_eq_self : (a : Text) → str_eq a a ≡ true
str_eq_self a = (str_eq_iff a a).1 refl

-- The same comparison where either side may be `NULL`; a `NULL` matches nothing.
abbrev pub opt_str_eq : Option Text → Text → Bool
opt_str_eq none b = false
opt_str_eq (some a) b = str_eq a b

-- `p == NULL`
abbrev pub is_null {ℓ} : {A : Type ℓ} → Option A → Bool
is_null none = true
is_null (some _) = false

-- `strncmp (a, b, n) == 0` for a `b` of that length.
unfoldable pub starts_with : Text → Text → Bool
starts_with t [] = true
starts_with [] (y ∷ ys) = false
starts_with (x ∷ xs) (y ∷ ys) = x == y && starts_with xs ys

-- `strstr`: the text from where the needle is first found.
unfoldable pub strstr : Text → Text → Option Text
strstr [] needle = if starts_with [] needle then some [] else none
strstr (c ∷ cs) needle = if starts_with (c ∷ cs) needle then some (c ∷ cs) else strstr cs needle

pub starts_with-append : (a b : Text) → starts_with (a ++ b) a ≡ true
unfolding starts_with
starts_with-append [] b = refl
starts_with-append (x ∷ a) b = ground (arith, starts_with-append a b)

pub starts_with-take : (t a : Text) → starts_with t a ≡ true → t ≡ a ++ drop (length a) t
unfolding starts_with
starts_with-take t [] h = refl
starts_with-take [] (y ∷ ys) h = cc
starts_with-take (x ∷ xs) (y ∷ ys) h = ground (arith, starts_with-take xs ys)
