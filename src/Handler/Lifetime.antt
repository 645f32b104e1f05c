-- ===== src/Handler/Lifetime.antt =====
-- The references to a handler (loudmouth/lm-message-handler.c).
use loudmouth.Base.{
  ℕ, zero, suc, ◌+◌, ◌≡◌, ap, ◌∙◌, Bool, true, false, List, [], ◌∷◌, Option, none, some, arith,
  ◌==◌, ◌%◌, ◌<◌, length,
}
use loudmouth.Handler.{HandlerResult, Handler, handle_message, new, invalidate, ref, unref}

-- What the holders of a handler do with it.
pub data Use (M : Type 0) : Type 0 where
  takes drops : Use M
  invalidates : Use M
  gets : M → Use M

added : (n : ℕ) → suc (suc n) < 4294967296 → (suc n + 1) % 4294967296 ≡ suc (suc n)
added n small = ground arith

not_zero : (n : ℕ) → (suc n == 0) ≡ false
not_zero n = ground arith

less : (n : ℕ) → suc (suc n) < 4294967296 → (suc (suc n) + 4294967295) % 4294967296 ≡ suc n
less n small = ground arith

some_injective : {n m : ℕ} → some n ≡ some m → n ≡ m
some_injective h = cc

module _ {M : Type 0} where
  -- The references that are left after some uses, `none` if that is not at least one all along.
  unfoldable pub references : ℕ → List (Use M) → Option ℕ
  references zero us = none
  references (suc n) [] = some (suc n)
  references (suc n) (takes ∷ us) = references (suc (suc n)) us
  references (suc n) (drops ∷ us) = references n us
  references (suc n) (invalidates ∷ us) = references (suc n) us
  references (suc n) (gets m ∷ us) = references (suc n) us

  abbrev pub still_valid : Bool → List (Use M) → Bool
  still_valid valid [] = valid
  still_valid valid (invalidates ∷ us) = still_valid false us
  still_valid valid (_ ∷ us) = still_valid valid us

module _ {W M : Type 0} where
  -- What becomes of the handler and the state. Nothing is done with a handler that is freed.
  unfoldable pub uses : Option (Handler W M) → W → List (Use M) → Option (Handler W M) × W
  uses none w us = (none, w)
  uses (some h) w [] = (some h, w)
  uses (some h) w (takes ∷ us) = uses (some (ref h)) w us
  uses (some h) w (drops ∷ us) = let (h', w') = unref h w in uses h' w' us
  uses (some h) w (invalidates ∷ us) = uses (some (invalidate h)) w us
  uses (some h) w (gets m ∷ us) = uses (some h) (handle_message h w m).0 us

  -- What is called for the messages while the handler is valid.
  pub messages_handled : Bool → (W → M → W × HandlerResult) → W → List (Use M) → W
  messages_handled valid function w [] = w
  messages_handled valid function w (takes ∷ us) = messages_handled valid function w us
  messages_handled valid function w (drops ∷ us) = messages_handled valid function w us
  messages_handled valid function w (invalidates ∷ us) = messages_handled false function w us
  messages_handled true function w (gets m ∷ us) =
      messages_handled true function (function w m).0 us
  messages_handled false function w (gets m ∷ us) = messages_handled false function w us

  abbrev held : Bool → ℕ → (W → M → W × HandlerResult) → Option (W → W) → Handler W M
  held valid n function notify = record {
    valid = valid;
    ref_count = n;
    function = some function;
    notify = notify;
  }

  dropped :
      (function : W → M → W × HandlerResult) (notify : Option (W → W)) (valid : Bool) (n : ℕ)
      (w : W)
      → suc (suc n) < 4294967296
      → unref (held valid (suc (suc n)) function notify) w
        ≡ (some (held valid (suc n) function notify), w)
  unfolding unref
  dropped function notify valid n w small = rw (less n small, not_zero n)

  uses_lem :
      (function : W → M → W × HandlerResult) (notify : Option (W → W)) (valid : Bool) (n left : ℕ)
      (w : W) (us : List (Use M))
      → n + length us < 4294967296
      → references n us ≡ some left
      → uses (some (held valid n function notify)) w us ≡ (
        some (held (still_valid valid us) left function notify),
        messages_handled valid function w us,
      )
  unfolding uses references messages_handled ref unref invalidate handle_message
  uses_lem function notify valid zero left w us small h = cc
  uses_lem function notify valid (suc n) left w [] small h =
      ap (λ k. (some (held valid k function notify), w)) (some_injective h)
  uses_lem function notify valid (suc n) left w (takes ∷ us) small h =
      ap (λ k. uses (some (held valid k function notify)) w us) (added n (omega (arith, small)))
      ∙ uses_lem function notify valid (suc (suc n)) left w us (omega (arith, small)) h
  uses_lem function notify valid (suc zero) left w (drops ∷ us) small h = cc
  uses_lem function notify valid (suc (suc n)) left w (drops ∷ us) small h =
      ap (λ r. uses r.0 r.1 us) (dropped function notify valid n w (omega (arith, small)))
      ∙ uses_lem function notify valid (suc n) left w us (omega (arith, small)) h
  uses_lem function notify valid (suc n) left w (invalidates ∷ us) small h =
      uses_lem function notify false (suc n) left w us (omega (arith, small)) h
  uses_lem function notify true (suc n) left w (gets m ∷ us) small h =
      uses_lem function notify true (suc n) left (function w m).0 us (omega (arith, small)) h
  uses_lem function notify false (suc n) left w (gets m ∷ us) small h =
      uses_lem function notify false (suc n) left w us (omega (arith, small)) h

  -- If there are fewer uses than 31 bits count, a new handler that is used with at least one
  -- reference at any time, and with one left in the end, has not been freed, nor has its user
  -- data, and its function has been called for just the messages that came before it was
  -- invalidated. Giving up the last reference then frees the handler, and its user data once.
  pub uses-new :
      (function : W → M → W × HandlerResult) (notify : W → W) (w : W) (us : List (Use M))
      → 1 + length us < 2147483648
      → references 1 us ≡ some 1
      → let handled = messages_handled true function w us in
        let (h, w') = uses (new (some function) (some notify)) w us in
        (w' ≡ handled) × (uses h w' (drops ∷ []) ≡ (none, notify handled))
  unfolding new uses unref
  uses-new function notify w us small h =
      let used = uses_lem function (some notify) true 1 1 w us (omega (arith, small)) h in
      (ap (λ r. r.1) used, ap (λ r. uses r.0 r.1 (drops ∷ [])) used)
