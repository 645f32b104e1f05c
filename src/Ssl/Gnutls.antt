-- ===== src/Ssl/Gnutls.antt =====
-- loudmouth/lm-ssl-gnutls.c. What GnuTLS answers is given.
pub mod Verdict
use loudmouth.Base.{
  ℕ, zero, suc, Bool, true, false, not, ◌||◌, List, [], ◌∷◌, Option, none, some, if◌then◌else◌,
  Text, length, ltb,
}
use loudmouth.Socket.{Status, normal, eof, status_error, again}
use loudmouth.Ssl.{
  SslStatus, no_cert_found, untrusted_cert, cert_expired, cert_not_activated,
  cert_hostname_mismatch, cert_fingerprint_mismatch, generic_error, SslResponse, SslBase, base_init,
  ask_if, ◌then_check◌, with_digest, mismatches,
}

-- `gnutls_certificate_verify_peers2`: zero, `GNUTLS_E_NO_CERTIFICATE_FOUND` or another number.
pub data Verified : Type 0 where
  verified no_certificate not_verified : Verified

abbrev pub lacks_certificate : Verified → Bool
lacks_certificate no_certificate = true
lacks_certificate _ = false

abbrev pub has_failed : Verified → Bool
has_failed verified = false
has_failed _ = true

-- An X.509 certificate: whether there is a list of certificates, its first one can be imported and
-- its name is the server's, and the fingerprint, if that can be made.
pub record X509 : Type 0 where
  pub has_list : Bool
  pub imports : Bool
  pub check_hostname : Text → Bool
  pub fingerprint : Option Text

-- What there is to know of the server. `is_invalid` and `is_revoked` are bits of `status`, as they
-- are after the verification; a time is `none` if it is unknown, which GnuTLS shows as -1.
pub record Peer : Type 0 where
  pub result : Verified
  pub is_invalid : Bool
  pub is_revoked : Bool
  pub expiration_time : Option ℕ
  pub activation_time : Option ℕ
  pub x509 : Option X509

abbrev pub is_before : Option ℕ → ℕ → Bool
is_before none now = true
is_before (some t) now = ltb t now

abbrev pub is_after : Option ℕ → ℕ → Bool
is_after none now = false
is_after (some t) now = ltb now t

-- What a call of `gnutls_record_recv` or `gnutls_record_send` returns.
pub data Return : Type 0 where
  bytes : ℕ → Return
  error_again error_interrupted another_error : Return

-- `_lm_ssl_read`: the status and `bytes_read`.
unfoldable pub read : Return → Status × ℕ
read error_again = (again, 0)
read (bytes zero) = (eof, 0)
read (bytes (suc n)) = (normal, suc n)
read _ = (status_error, 0)

-- `_lm_ssl_send`, over what is returned, call after call: -1 is `some none`, and `none` means that
-- the loop still goes on.
unfoldable pub send : List Return → Option (Option ℕ)
send [] = none
send (bytes n ∷ later) = some (some n)
send (error_interrupted ∷ later) = send later
send (error_again ∷ later) = send later
send (another_error ∷ later) = some none

module _ (W : Type 0) where
  -- `struct _LmSSL`
  pub record GnuTls : Type 0 where
    pub base : SslBase W
    pub started : Bool

-- What a call does: a session is made and freed, and so are the credentials.
pub data Effect : Type 0 where
  makes_session frees_session makes_credentials frees_credentials : Effect

-- What `_lm_ssl_begin` comes to: an error with either text, or success.
pub data Begun : Type 0 where
  handshake_failed authentication_error begun : Begun

module _ {W : Type 0} where
  -- `ssl_verify_certificate` up to the test for the type of the certificate.
  unfoldable pub verify_peers : SslBase W → Peer → ℕ → ℕ → W → W × Bool
  unfolding ask_if
  verify_peers base peer now later =
      ask_if (lacks_certificate peer.result) base no_cert_found
      then_check (ask_if (has_failed peer.result) base generic_error
          then_check (ask_if (lacks_certificate peer.result) base no_cert_found
              then_check (ask_if (peer.is_invalid || peer.is_revoked) base untrusted_cert
                  then_check (ask_if (is_before peer.expiration_time now) base cert_expired
                      then_check ask_if (is_after peer.activation_time later) base
                          cert_not_activated))))

  -- Of what is done with an X.509 certificate, the part before the fingerprint.
  unfoldable pub check_names : SslBase W → X509 → Text → W → W × Bool
  unfolding ask_if
  check_names base x509 server =
      ask_if (not x509.has_list) base no_cert_found
      then_check (ask_if (not x509.imports) base no_cert_found
          then_check ask_if (not (x509.check_hostname server)) base cert_hostname_mismatch)

  -- And the fingerprint.
  unfoldable pub check_fingerprint : SslBase W → Option Text → W → SslBase W × W × Bool
  unfolding ask_if with_digest mismatches
  check_fingerprint base none w =
      let (w', go_on) = ask_if true base generic_error w in (base, w', go_on)
  check_fingerprint base (some digest) w =
      let base' = with_digest base digest in
      let (w', go_on) =
        ask_if (mismatches base' (length digest)) base' cert_fingerprint_mismatch w in
      (base', w', go_on)

  -- The whole part for an X.509 certificate.
  unfoldable pub check_x509 : SslBase W → Option X509 → Text → W → SslBase W × W × Bool
  unfolding check_names check_fingerprint
  check_x509 base none server w = (base, w, true)
  check_x509 base (some x509) server w =
      let (w', go_on) = check_names base x509 server w in
      if go_on then check_fingerprint base x509.fingerprint w' else (base, w', false)

  -- `ssl_verify_certificate`, at the two times at which it looks at the clock.
  unfoldable pub verify_certificate : SslBase W → W → Peer → Text → ℕ → ℕ → SslBase W × W × Bool
  unfolding verify_peers check_x509
  verify_certificate base w peer server now later =
      let (w', go_on) = verify_peers base peer now later w in
      if go_on then check_x509 base peer.x509 server w' else (base, w', false)

  -- `_lm_ssl_new`
  unfoldable pub new :
      Option Text → Option (W → Text → SslStatus → W × SslResponse) → Option (W → W) → GnuTls W
  new expected_fingerprint ssl_function notify = record {
    base = base_init expected_fingerprint ssl_function notify;
    started = false;
  }

  -- `_lm_ssl_initialize`
  unfoldable pub initialize : GnuTls W → GnuTls W × List Effect
  initialize ssl = (ssl, makes_credentials ∷ [])

  -- The end of `_lm_ssl_begin`, after the handshake.
  unfoldable pub shaken : GnuTls W → W → Bool → Peer → Text → ℕ → ℕ → GnuTls W × W × Begun
  unfolding verify_certificate
  shaken ssl w false peer server now later = (ssl, w, handshake_failed)
  shaken ssl w true peer server now later =
      let (base', w', ok) = verify_certificate ssl.base w peer server now later in
      if ok
      then (record ssl { base = base'; started = true }, w', begun)
      else (record ssl { base = base' }, w', authentication_error)

  -- `_lm_ssl_begin`, given whether the handshake succeeds.
  unfoldable pub begin :
      GnuTls W → W → Bool → Peer → Text → ℕ → ℕ → GnuTls W × W × Begun × List Effect
  unfolding shaken
  begin ssl w handshake peer server now later =
      let (ssl', w', result) = shaken ssl w handshake peer server now later in
      (ssl', w', result, makes_session ∷ [])

  -- `_lm_ssl_close`: `started` stays as it is.
  unfoldable pub close : GnuTls W → GnuTls W × List Effect
  close ssl = (ssl, if ssl.started then frees_session ∷ frees_credentials ∷ [] else [])
