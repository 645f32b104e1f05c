-- ===== src/Utils.antt =====
-- loudmouth/lm-utils.c: callbacks, new ids and names of hosts.
pub mod Ids
use Prim.Native.Nat.{bit_and}
use loudmouth.Base.{ℕ, ◌+◌, ◌%◌, ◌++◌, Option, none, some, Text}
use loudmouth.Base.Decimal.{long_decimal}

-- `LmCallback`: a function and what frees its user data; both have these inside.
pub record Callback (F W : Type 0) : Type 0 where
  pub func : F
  pub notify : Option (W → W)

module _ {F W : Type 0} where
  -- `_lm_utils_new_callback`
  unfoldable pub new_callback : F → Option (W → W) → Callback F W
  new_callback func notify = record { func = func; notify = notify }

  -- `_lm_utils_free_callback`
  unfoldable pub free_callback : Option (Callback F W) → W → W
  free_callback none w = w
  free_callback (some cb) w = elim cb.notify [ none ↦ w | some notify ↦ notify w ]

-- `_lm_utils_generate_id` at a time in seconds and microseconds: the next `last_id` and the id. The
-- sum keeps far below what a `glong` of 64 bits holds.
unfoldable pub generate_id : ℕ → ℕ → ℕ → ℕ × Text
unfolding long_decimal
generate_id last_id tv_sec tv_usec = (
  (last_id + 1) % 4294967296,
  long_decimal (bit_and tv_sec tv_usec + last_id) ++ long_decimal tv_usec,
)

-- `stringprep_utf8_to_ucs4` and `idna_to_ascii_4z` of libidn are parameters; they may fail.
module _ {U : Type 0} (utf8_to_ucs4 : Text → Option U) (to_ascii : U → Option Text) where
  -- `_lm_utils_hostname_to_punycode`, with `HAVE_IDN`.
  unfoldable pub hostname_to_punycode : Text → Text
  hostname_to_punycode hostname = elim (utf8_to_ucs4 hostname) [
    | none ↦ hostname
    | some q ↦ elim (to_ascii q) [ none ↦ hostname | some s ↦ s ]
  ]
