-- ===== src/Base/Counted.antt =====
-- Objects that are shared by a reference count of 32 bits.
use mathlib.Core.Path.{◌≡◌, refl, sym, ap, ◌∙◌}
use mathlib.Core.List.{List, [], ◌∷◌}
use mathlib.Core.Option.{Option, none, some}
use Prim.Native.Nat.{ℕ, zero, suc, ◌+◌, ◌<◌}
use native.Mathlib.Omega.{arith}
use loudmouth.Base.Lists.{length}

-- Operations on objects `O`, and what they do: the count alone changes, and with the last reference
-- the object is freed, which may change the state `W` of the program.
pub record Counted (O W : Type 0) : Type 0 where
  pub ref : O → O
  pub unref : O → W → Option O × W
  pub free : O → W → W
  pub count : O → ℕ
  pub with_count : O → ℕ → O
  pub ref_lem : (o : O) → count o + 1 < 4294967296 → ref o ≡ with_count o (count o + 1)
  pub unref_last : (o : O) (w : W) → count o ≡ 1 → unref o w ≡ (none, free o w)
  pub unref_other :
      (o : O) (w : W) (n : ℕ)
      → count o ≡ suc (suc n)
      → count o < 4294967296
      → unref o w ≡ (some (with_count o (suc n)), w)
  pub count_lem : (o : O) (n : ℕ) → count (with_count o n) ≡ n
  pub with_count_again : (o : O) (n m : ℕ) → with_count (with_count o n) m ≡ with_count o m
  pub with_count_same : (o : O) → with_count o (count o) ≡ o
  pub free_lem : (o : O) (n : ℕ) (w : W) → free (with_count o n) w ≡ free o w

-- What the holders of references do.
pub data Change : Type 0 where
  takes drops : Change

-- The references that are left, `none` once there are none.
abbrev pub balance : ℕ → List Change → Option ℕ
balance zero us = none
balance (suc n) [] = some (suc n)
balance (suc n) (takes ∷ us) = balance (suc (suc n)) us
balance (suc n) (drops ∷ us) = balance n us

module _ {O W : Type 0} (counted : Counted O W) where
  -- Nothing is done with an object that is freed.
  abbrev pub changes : Option O → W → List Change → Option O × W
  changes none w us = (none, w)
  changes (some o) w [] = (some o, w)
  changes (some o) w (takes ∷ us) = changes (some (counted.ref o)) w us
  changes (some o) w (drops ∷ us) = let (o', w') = counted.unref o w in changes o' w' us

  -- What is left for a number of references.
  abbrev pub left : O → W → Option ℕ → Option O × W
  left o w none = (none, counted.free o w)
  left o w (some n) = (some (counted.with_count o n), w)

  taken :
      (n : ℕ) (o : O)
      → suc (suc n) < 4294967296
      → counted.ref (counted.with_count o (suc n)) ≡ counted.with_count o (suc (suc n))
  taken n o small =
      let known = counted.count_lem o (suc n) in
      let next : counted.count (counted.with_count o (suc n)) + 1 ≡ suc (suc n) =
        omega (arith, known) in
      counted.ref_lem (counted.with_count o (suc n)) (omega (arith, next, small))
      ∙ (counted.with_count_again o (suc n) (counted.count (counted.with_count o (suc n)) + 1)
          ∙ ap (counted.with_count o) next)

  dropped :
      (n : ℕ) (o : O) (w : W)
      → suc (suc n) < 4294967296
      → counted.unref (counted.with_count o (suc (suc n))) w
        ≡ (some (counted.with_count o (suc n)), w)
  dropped n o w small =
      let known = counted.count_lem o (suc (suc n)) in
      counted.unref_other (counted.with_count o (suc (suc n))) w n known
        (omega (arith, known, small))
      ∙ ap (λ (o' : O). (some o', w)) (counted.with_count_again o (suc (suc n)) (suc n))

  changes_from :
      (n : ℕ) (o : O) (w : W) (us : List Change)
      → suc n + length us < 4294967296
      → changes (some (counted.with_count o (suc n))) w us ≡ left o w (balance (suc n) us)
  changes_from n o w [] small = refl
  changes_from n o w (takes ∷ us) small =
      ap (λ (o' : O). changes (some o') w us) (taken n o (omega (arith, small)))
      ∙ changes_from (suc n) o w us (omega (arith, small))
  changes_from zero o w (drops ∷ us) small =
      ap (λ (r : Option O × W). changes r.0 r.1 us)
        (counted.unref_last (counted.with_count o 1) w (counted.count_lem o 1))
      ∙ ap (λ (w' : W). (none, w')) (counted.free_lem o 1 w)
  changes_from (suc n) o w (drops ∷ us) small =
      ap (λ (r : Option O × W). changes r.0 r.1 us) (dropped n o w (omega (arith, small)))
      ∙ changes_from n o w us (omega (arith, small))

  -- The object is freed exactly when the last reference to it is dropped, once; until then it is
  -- as it was, but for the count.
  pub changes_lem :
      (o : O) (w : W) (us : List Change) (n : ℕ)
      → counted.count o ≡ suc n
      → suc n + length us < 4294967296
      → changes (some o) w us ≡ left o w (balance (suc n) us)
  changes_lem o w us n h small =
      ap (λ (o' : O). changes (some o') w us)
        (sym (counted.with_count_same o) ∙ ap (counted.with_count o) h)
      ∙ changes_from n o w us small
