-- ===== src/Ssl.antt =====
-- SSL: loudmouth/lm-ssl.h, lm-ssl-base.h, lm-ssl-base.c and lm-ssl-generic.c.
pub mod Lifetime
pub mod Openssl
pub mod Gnutls
pub mod Reports
use loudmouth.Base.{
  ℕ, ◌+◌, ◌-◌, Bool, true, false, List, Option, none, some, ◌==◌, if◌then◌else◌, Text, replicate,
  take, drop, length, not, str_eq, ◌++◌,
}

-- `LmSSLStatus`
pub data SslStatus : Type 0 where
  no_cert_found untrusted_cert cert_expired cert_not_activated : SslStatus
  cert_hostname_mismatch cert_fingerprint_mismatch generic_error : SslStatus

-- `LmSSLResponse`
pub data SslResponse : Type 0 where
  response_continue response_stop : SslResponse

-- `… == LM_SSL_RESPONSE_CONTINUE`
abbrev pub continues : SslResponse → Bool
continues response_continue = true
continues response_stop = false

-- The callback acts on the state `W` of the program.
module _ (W : Type 0) where
  -- `struct _LmSSLBase`. The callbacks have `func_data` inside; what `func` may read of the pointer
  -- that it is given is the fingerprint.
  pub record SslBase : Type 0 where
    pub func : W → Text → SslStatus → W × SslResponse
    pub data_notify : Option (W → W)
    pub expected_fingerprint : Option Text
    pub fingerprint : Text
    pub use_starttls : Bool
    pub require_starttls : Bool
    pub ref_count : ℕ

module _ {W : Type 0} where
  -- `_lm_ssl_func_always_continue`
  unfoldable pub func_always_continue : W → Text → SslStatus → W × SslResponse
  func_always_continue w fingerprint status = (w, response_continue)

  -- The last test of `_lm_ssl_base_init`.
  unfoldable pub func_or_default :
      Option (W → Text → SslStatus → W × SslResponse) → W → Text → SslStatus → W × SslResponse
  unfolding func_always_continue
  func_or_default none = func_always_continue
  func_or_default (some func) = func

  -- `_lm_ssl_base_init`, on memory that is zero, and of the fingerprint that is expected the first 16
  -- bytes.
  unfoldable pub base_init :
      Option Text → Option (W → Text → SslStatus → W × SslResponse) → Option (W → W) → SslBase W
  unfolding func_or_default
  base_init expected_fingerprint ssl_function notify = record {
    func = func_or_default ssl_function;
    data_notify = notify;
    expected_fingerprint = elim expected_fingerprint [ none ↦ none | some f ↦ some (take 16 f) ];
    fingerprint = replicate 20 0;
    use_starttls = false;
    require_starttls = false;
    ref_count = 1;
  }

  -- `lm_ssl_ref`
  unfoldable pub ref : SslBase W → SslBase W
  ref base = record base { ref_count = base.ref_count + 1 }

  -- `lm_ssl_unref`: `none` once it is freed. A live object has a count of at least one, so the count
  -- does not pass zero.
  unfoldable pub unref : SslBase W → W → Option (SslBase W) × W
  unref base w =
      if base.ref_count == 1
      then (none, elim base.data_notify [ none ↦ w | some notify ↦ notify w ])
      else (some (record base { ref_count = base.ref_count - 1 }), w)

  -- `lm_ssl_use_starttls`
  unfoldable pub set_use_starttls : SslBase W → Bool → Bool → SslBase W
  set_use_starttls base wanted required = record base {
    use_starttls = wanted;
    require_starttls = required;
  }

  -- `lm_ssl_get_use_starttls`
  unfoldable pub get_use_starttls : SslBase W → Bool
  get_use_starttls base = base.use_starttls

  -- `lm_ssl_get_require_starttls`
  unfoldable pub get_require_starttls : SslBase W → Bool
  get_require_starttls base = base.require_starttls

  -- `lm_ssl_get_fingerprint`
  unfoldable pub get_fingerprint : SslBase W → Text
  get_fingerprint base = base.fingerprint

  -- `base->func (…) != LM_SSL_RESPONSE_CONTINUE`, under the test for a problem: the answer is
  -- whether to go on.
  unfoldable pub ask_if : Bool → SslBase W → SslStatus → W → W × Bool
  ask_if false base status w = (w, true)
  ask_if true base status w =
      let (w', response) = base.func w base.fingerprint status in (w', continues response)

  -- One check, and another if the first one lets go on.
  infixr 20 ◌then_check◌
  abbrev pub ◌then_check◌ : (W → W × Bool) → (W → W × Bool) → W → W × Bool
  ◌then_check◌ first second w =
      let (w', go_on) = first w in if go_on then second w' else (w', false)

  -- The digest of the certificate is written over the start of `fingerprint`.
  unfoldable pub with_digest : SslBase W → Text → SslBase W
  with_digest base digest = record base {
    fingerprint = digest ++ drop (length digest) base.fingerprint;
  }

  -- `expected_fingerprint && memcmp (expected_fingerprint, fingerprint, length) != 0`
  unfoldable pub mismatches : SslBase W → ℕ → Bool
  mismatches base n = elim base.expected_fingerprint [
    | none ↦ false
    | some expected ↦ not (str_eq (take n expected) (take n base.fingerprint))
  ]
