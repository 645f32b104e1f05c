-- ===== src/Ssl/Openssl.antt =====
-- loudmouth/lm-ssl-openssl.c. What OpenSSL answers is given.
pub mod Problems
pub mod Verdict
pub mod Hostname
pub mod Opened
use loudmouth.Base.{
  ℕ, Bool, true, false, not, ◌&&◌, List, [], ◌∷◌, Option, none, some, if◌then◌else◌, Text, take,
  length, str_eq, starts_with, strstr, codes, is_null,
}
use loudmouth.Socket.{Status, normal, eof, status_error, again}
use loudmouth.Ssl.{
  SslStatus, no_cert_found, untrusted_cert, cert_expired, cert_not_activated,
  cert_hostname_mismatch, cert_fingerprint_mismatch, generic_error, SslResponse, SslBase, base_init,
  ask_if, with_digest, mismatches,
}

-- `SSL_get_verify_result`
pub data VerifyResult : Type 0 where
  verify_ok self_signed no_issuer no_crl no_leaf_signature : VerifyResult
  invalid_ca not_trusted revoked : VerifyResult
  not_yet_valid crl_not_yet_valid has_expired crl_has_expired : VerifyResult
  another_result : VerifyResult

-- What there is to know of the server: the result of the verification, the MD5 digest of its
-- certificate, and what `X509_NAME_get_text_by_NID` puts in the buffer for the common name, if it
-- returns a positive number.
pub record Peer : Type 0 where
  pub verify_result : VerifyResult
  pub digest : Text
  pub common_name : Option Text

-- `strncmp (a, b, n) == 0`
abbrev pub strn_eq : ℕ → Text → Text → Bool
strn_eq n a b = str_eq (take n a) (take n b)

-- Whether what is left of the common name is the server's name.
abbrev pub is_domain : Text → Option Text → Bool
is_domain server none = false
is_domain server (some domain) = strn_eq 63 server domain

-- Whether the common name is that of the server, as `ssl_verify_certificate` tests it.
unfoldable pub hostname_matches : Text → Text → Bool
hostname_matches cn server =
    is_domain server (if starts_with cn (codes "*.") then strstr cn server else some cn)

-- The `switch` on the result of the verification: what the program is asked about.
unfoldable pub status_of : VerifyResult → Option SslStatus
status_of verify_ok = none
status_of self_signed = some no_cert_found
status_of no_issuer = some no_cert_found
status_of no_crl = some no_cert_found
status_of no_leaf_signature = some no_cert_found
status_of invalid_ca = some untrusted_cert
status_of not_trusted = some untrusted_cert
status_of revoked = some untrusted_cert
status_of not_yet_valid = some cert_not_activated
status_of crl_not_yet_valid = some cert_not_activated
status_of has_expired = some cert_expired
status_of crl_has_expired = some cert_expired
status_of another_result = some generic_error

-- Whether the common name is there and is another one.
unfoldable pub misnamed : Option Text → Text → Bool
unfolding hostname_matches
misnamed none server = false
misnamed (some cn) server = not (hostname_matches cn server)

-- `ssl_io_status_from_return` of a number that is not positive, by `SSL_get_error`.
pub data SslError : Type 0 where
  error_none zero_return want_read want_write want_x509_lookup error_syscall error_ssl : SslError

-- What a call of OpenSSL returns.
pub data Return : Type 0 where
  positive : ℕ → Return
  not_positive : SslError → Return

-- `ssl_io_status_from_return`
unfoldable pub io_status_from_return : Return → Status
io_status_from_return (positive n) = normal
io_status_from_return (not_positive want_read) = again
io_status_from_return (not_positive want_write) = again
io_status_from_return (not_positive zero_return) = eof
io_status_from_return (not_positive _) = status_error

-- Whether a loop goes on after a return that is not positive.
abbrev pub is_again : Status → Bool
is_again again = true
is_again _ = false

-- `_lm_ssl_read`: the status and `bytes_read`.
unfoldable pub read : Return → Status × ℕ
unfolding io_status_from_return
read (positive n) = (io_status_from_return (positive n), n)
read (not_positive e) = (io_status_from_return (not_positive e), 0)

-- The loops of `_lm_ssl_begin` and `_lm_ssl_send` over what is returned, call after call: the number
-- that is returned at last, and `some none` for a failure; `none` if they still go on.
unfoldable pub until_settled : List Return → Option (Option ℕ)
unfolding io_status_from_return
until_settled [] = none
until_settled (positive n ∷ later) = some (some n)
until_settled (not_positive e ∷ later) =
    if is_again (io_status_from_return (not_positive e)) then until_settled later else some none

-- `_lm_ssl_send`: -1 is `some none`.
unfoldable pub send : List Return → Option (Option ℕ)
unfolding until_settled
send returns = until_settled returns

module _ (W : Type 0) where
  -- `struct _LmSSL`: whether there are a context and a session.
  pub record OpenSsl : Type 0 where
    pub base : SslBase W
    pub has_ctx : Bool
    pub has_ssl : Bool

-- What `_lm_ssl_begin` comes to: it goes on, it has no context, no session, no descriptor, a
-- connection that fails, a certificate that is refused, or success.
pub data Begun : Type 0 where
  goes_on no_context no_session no_fd connect_fails refused begun : Begun

-- The result of `_lm_ssl_begin`.
abbrev pub succeeds : Begun → Bool
succeeds begun = true
succeeds _ = false

module _ {W : Type 0} where
  -- The test for a problem with the result of the verification.
  unfoldable pub ask_result : SslBase W → Option SslStatus → W → W × Bool
  ask_result base none w = (w, true)
  ask_result base (some status) w = ask_if true base status w

  -- The tests of `ssl_verify_certificate`, by what each finds. Only the first one returns at once.
  unfoldable pub checks : SslBase W → W → Bool → Option SslStatus → Bool → SslBase W × W × Bool
  unfolding ask_result ask_if
  checks base w mismatch problem other_name =
      let (w1, go_on) = ask_if mismatch base cert_fingerprint_mismatch w in
      let (w2, trusted) = ask_result base problem w1 in
      let (w3, named) = ask_if other_name base cert_hostname_mismatch w2 in
      if go_on then (base, w3, trusted && named) else (base, w1, false)

  -- The digest is taken if there is one to compare it with.
  unfoldable pub take_digest : SslBase W → Text → SslBase W
  unfolding with_digest
  take_digest base digest =
      if is_null base.expected_fingerprint then base else with_digest base digest

  -- `ssl_verify_certificate`
  unfoldable pub verify_certificate : SslBase W → W → Peer → Text → SslBase W × W × Bool
  unfolding checks take_digest mismatches status_of misnamed
  verify_certificate base w peer server =
      let base' = take_digest base peer.digest in
      checks base' w (mismatches base' (length peer.digest)) (status_of peer.verify_result)
        (misnamed peer.common_name server)

  -- `_lm_ssl_new`
  unfoldable pub new :
      Option Text → Option (W → Text → SslStatus → W × SslResponse) → Option (W → W) → OpenSsl W
  new expected_fingerprint ssl_function notify = record {
    base = base_init expected_fingerprint ssl_function notify;
    has_ctx = false;
    has_ssl = false;
  }

  -- `_lm_ssl_initialize`, if OpenSSL has a context to give.
  unfoldable pub initialize : OpenSsl W → OpenSsl W
  initialize ssl = record ssl { has_ctx = true }

  -- The end of `_lm_ssl_begin`, by what the loop of `SSL_connect` comes to.
  unfoldable pub connected : OpenSsl W → W → Peer → Text → Option (Option ℕ) → OpenSsl W × W × Begun
  unfolding verify_certificate
  connected ssl w peer server none = (ssl, w, goes_on)
  connected ssl w peer server (some none) = (ssl, w, connect_fails)
  connected ssl w peer server (some (some n)) =
      let (base', w', ok) = verify_certificate ssl.base w peer server in
      (record ssl { base = base' }, w', if ok then begun else refused)

  -- `_lm_ssl_begin`, given whether `SSL_new` and `SSL_set_fd` succeed, and what `SSL_connect`
  -- returns, call after call.
  unfoldable pub begin :
      OpenSsl W → W → Bool → Bool → List Return → Peer → Text → OpenSsl W × W × Begun
  unfolding until_settled connected
  begin ssl w has_new sets_fd returns peer server =
      let fresh = record ssl { has_ssl = has_new } in
      if not ssl.has_ctx
      then (ssl, w, no_context)
      else if not has_new
      then (fresh, w, no_session)
      else if not sets_fd
      then (fresh, w, no_fd)
      else connected fresh w peer server (until_settled returns)

  -- `_lm_ssl_close`: whether the session is shut down and freed.
  unfoldable pub close : OpenSsl W → OpenSsl W × Bool
  close ssl = (record ssl { has_ssl = false }, ssl.has_ssl)
