-- ===== src/Parameters/Lifetime.antt =====
-- The references to the parameters of loudmouth/lm-data-objects.c.
use loudmouth.Base.{ℕ, suc, ◌+◌, ◌<◌, ◌≡◌, refl, ap, Option, none, some, arith, List, Text, length}
use loudmouth.Base.Counted.{Counted, Change, balance, changes, left, changes_lem}
use loudmouth.Parameters.Auth.{AuthParameters}
use loudmouth.Parameters.Auth
use loudmouth.Parameters.Connecting.{ConnectParameters}
use loudmouth.Parameters.Connecting

pub auth_ref_lem :
    (params : AuthParameters)
    → params.ref_count + 1 < 4294967296
    → Auth.ref params ≡ record params { ref_count = params.ref_count + 1 }
unfolding Auth.ref
auth_ref_lem params h = ground arith

pub auth_unref_last : (params : AuthParameters) → params.ref_count ≡ 1 → Auth.unref params ≡ none
unfolding Auth.unref
auth_unref_last params h = ground arith

pub auth_unref_other :
    (params : AuthParameters) (n : ℕ)
    → params.ref_count ≡ suc (suc n)
    → params.ref_count < 4294967296
    → Auth.unref params ≡ some (record params { ref_count = suc n })
unfolding Auth.unref
auth_unref_other params n h small = ground arith

pub connect_ref_lem :
    (params : ConnectParameters)
    → params.ref_count + 1 < 4294967296
    → Connecting.ref params ≡ record params { ref_count = params.ref_count + 1 }
unfolding Connecting.ref
connect_ref_lem params h = ground arith

pub connect_unref_last :
    (params : ConnectParameters) → params.ref_count ≡ 1 → Connecting.unref params ≡ none
unfolding Connecting.unref
connect_unref_last params h = ground arith

pub connect_unref_other :
    (params : ConnectParameters) (n : ℕ)
    → params.ref_count ≡ suc (suc n)
    → params.ref_count < 4294967296
    → Connecting.unref params ≡ some (record params { ref_count = suc n })
unfolding Connecting.unref
connect_unref_other params n h small = ground arith

abbrev pub auth_counted : Counted AuthParameters (Unit {0})
auth_counted = record {
  ref = Auth.ref;
  unref = λ params w. (Auth.unref params, w);
  free = λ params w. w;
  count = λ params. params.ref_count;
  with_count = λ params n. record params { ref_count = n };
  ref_lem = auth_ref_lem;
  unref_last = λ params w h. ap (λ (o : Option AuthParameters). (o, w)) (auth_unref_last params h);
  unref_other = λ params w n h small.
      ap (λ (o : Option AuthParameters). (o, w)) (auth_unref_other params n h small);
  count_lem = λ params n. refl;
  with_count_again = λ params n m. refl;
  with_count_same = λ params. refl;
  free_lem = λ params n w. refl;
}

abbrev pub connect_counted : Counted ConnectParameters (Unit {0})
connect_counted = record {
  ref = Connecting.ref;
  unref = λ params w. (Connecting.unref params, w);
  free = λ params w. w;
  count = λ params. params.ref_count;
  with_count = λ params n. record params { ref_count = n };
  ref_lem = connect_ref_lem;
  unref_last =
      λ params w h. ap (λ (o : Option ConnectParameters). (o, w)) (connect_unref_last params h);
  unref_other = λ params w n h small.
      ap (λ (o : Option ConnectParameters). (o, w)) (connect_unref_other params n h small);
  count_lem = λ params n. refl;
  with_count_again = λ params n m. refl;
  with_count_same = λ params. refl;
  free_lem = λ params n w. refl;
}

-- Parameters for authentication that are new hold what they were made of for as long as a reference
-- to them is left, and are freed with the last one, whatever is taken and dropped in between, if
-- that is less than 32 bits can count.
changes-auth_new :
    (username password resource : Option Text) (us : List Change)
    → 1 + length us < 4294967296
    → changes auth_counted (some (Auth.new username password resource)) tt us
      ≡ left auth_counted (Auth.new username password resource) tt (balance 1 us)
unfolding Auth.new
changes-auth_new username password resource us small =
    changes_lem auth_counted (Auth.new username password resource) tt us 0 refl small

pub changes-connect_new :
    (domain host : Option Text) (port : ℕ) (us : List Change)
    → 1 + length us < 4294967296
    → changes connect_counted (some (Connecting.new domain host port)) tt us
      ≡ left connect_counted (Connecting.new domain host port) tt (balance 1 us)
unfolding Connecting.new
changes-connect_new domain host port us small =
    changes_lem connect_counted (Connecting.new domain host port) tt us 0 refl small
