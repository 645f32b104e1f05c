-- ===== src/Ssl/Lifetime.antt =====
-- The references to SSL's state: loudmouth/lm-ssl-generic.c.
use loudmouth.Base.{ℕ, suc, ◌+◌, ◌<◌, ◌≡◌, refl, Option, none, some, arith, List, Text, length}
use loudmouth.Base.Counted.{Counted, Change, balance, changes, left, changes_lem}
use loudmouth.Ssl.{SslStatus, SslResponse, SslBase, base_init, ref, unref}

module _ {W : Type 0} where
  -- The state after `data_notify`, if there is one.
  abbrev pub notified : SslBase W → W → W
  notified base w = elim base.data_notify [ none ↦ w | some notify ↦ notify w ]

  pub ref_lem : (base : SslBase W) → ref base ≡ record base { ref_count = base.ref_count + 1 }
  unfolding ref
  ref_lem base = refl

  pub unref_last :
      (base : SslBase W) (w : W) → base.ref_count ≡ 1 → unref base w ≡ (none, notified base w)
  unfolding unref
  unref_last base w h = ground arith

  pub unref_other :
      (base : SslBase W) (w : W) (n : ℕ)
      → base.ref_count ≡ suc (suc n)
      → unref base w ≡ (some (record base { ref_count = suc n }), w)
  unfolding unref
  unref_other base w n h = ground arith

  abbrev pub counted : Counted (SslBase W) W
  counted = record {
    ref = ref;
    unref = unref;
    free = notified;
    count = λ base. base.ref_count;
    with_count = λ base n. record base { ref_count = n };
    ref_lem = λ base small. ref_lem base;
    unref_last = unref_last;
    unref_other = λ base w n h small. unref_other base w n h;
    count_lem = λ base n. refl;
    with_count_again = λ base n m. refl;
    with_count_same = λ base. refl;
    free_lem = λ base n w. refl;
  }

-- While references to SSL's state are left nothing of it changes but their number; when the last
-- one is dropped, and not before, the program's data is let go of by data_notify, once. The state
-- is new, and no more is taken and dropped than 31 bits can count.
pub changes-base_init :
    {W : Type 0} (fingerprint : Option Text)
    (ssl_function : Option (W → Text → SslStatus → W × SslResponse)) (notify : Option (W → W))
    (w : W) (us : List Change)
    → 1 + length us < 2147483648
    → changes counted (some (base_init fingerprint ssl_function notify)) w us
      ≡ left counted (base_init fingerprint ssl_function notify) w (balance 1 us)
unfolding base_init
changes-base_init fingerprint ssl_function notify w us small =
    changes_lem counted (base_init fingerprint ssl_function notify) w us 0 refl
      (omega (arith, small))
