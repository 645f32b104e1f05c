-- ===== src/Ssl/Gnutls/Verdict.antt =====
-- What loudmouth/lm-ssl-gnutls.c makes of a certificate.
use mathlib.Core.List.{append-nil}
use loudmouth.Base.{ℕ, ◌≡◌, Bool, true, not, ◌||◌, List, [], ◌∷◌, ◌++◌, Option, none, some, Text}
use loudmouth.Ssl.{
  SslStatus, no_cert_found, untrusted_cert, cert_expired, cert_not_activated,
  cert_hostname_mismatch, cert_fingerprint_mismatch, generic_error, SslResponse, SslBase, ask_if,
  ◌then_check◌, with_digest,
}
use loudmouth.Ssl.Reports.{
  listening, verdict, all_continue, up_to_stop, if_there, is_other, mismatches_lem, Asks,
  ask_if-Asks, then_check-Asks, then_verdict, ask_if_lem,
}
use loudmouth.Ssl.Gnutls.{
  Peer, X509, lacks_certificate, has_failed, is_before, is_after, verify_peers, check_names,
  check_fingerprint, check_x509, verify_certificate,
}

-- The problems of the server, in the order in which they are looked for.
abbrev pub peer_problems : Peer → ℕ → ℕ → List SslStatus
peer_problems peer now later =
    if_there (lacks_certificate peer.result) no_cert_found
    ++ (if_there (has_failed peer.result) generic_error
        ++ (if_there (lacks_certificate peer.result) no_cert_found
            ++ (if_there (peer.is_invalid || peer.is_revoked) untrusted_cert
                ++ (if_there (is_before peer.expiration_time now) cert_expired
                    ++ if_there (is_after peer.activation_time later) cert_not_activated))))

abbrev pub name_problems : X509 → Text → List SslStatus
name_problems x509 server =
    if_there (not x509.has_list) no_cert_found
    ++ (if_there (not x509.imports) no_cert_found
        ++ if_there (not (x509.check_hostname server)) cert_hostname_mismatch)

abbrev pub fingerprint_problems : Option Text → Option Text → List SslStatus
fingerprint_problems expected none = generic_error ∷ []
fingerprint_problems expected (some digest) =
    if_there (is_other expected digest) cert_fingerprint_mismatch

abbrev pub x509_problems : Option Text → Option X509 → Text → List SslStatus
x509_problems expected none server = []
x509_problems expected (some x509) server =
    name_problems x509 server ++ fingerprint_problems expected x509.fingerprint

abbrev pub problems : Option Text → Peer → Text → ℕ → ℕ → List SslStatus
problems expected peer server now later =
    peer_problems peer now later ++ x509_problems expected peer.x509 server

module _ (answer : SslStatus → SslResponse) (base : SslBase (List SslStatus)) where
  ask :
      (there : Bool) (status : SslStatus)
      → Asks answer (ask_if there (listening base answer) status) (if_there there status)
  ask there status = ask_if-Asks answer there base status

  and_then :
      {first second : List SslStatus → List SslStatus × Bool} {p q : List SslStatus}
      → Asks answer first p
      → Asks answer second q
      → Asks answer (first then_check second) (p ++ q)
  and_then = then_check-Asks answer

  verify_peers-Asks :
      (peer : Peer) (now later : ℕ)
      → Asks answer
          (verify_peers (listening base answer) peer now later)
          (peer_problems peer now later)
  unfolding verify_peers
  verify_peers-Asks peer now later = and_then (ask (lacks_certificate peer.result) no_cert_found) (
      and_then (ask (has_failed peer.result) generic_error) (
        and_then (ask (lacks_certificate peer.result) no_cert_found) (
          and_then (ask (peer.is_invalid || peer.is_revoked) untrusted_cert) (
            and_then (ask (is_before peer.expiration_time now) cert_expired)
              (ask (is_after peer.activation_time later) cert_not_activated)))))

  check_names-Asks :
      (x509 : X509) (server : Text)
      → Asks answer (check_names (listening base answer) x509 server) (name_problems x509 server)
  unfolding check_names
  check_names-Asks x509 server = and_then (ask (not x509.has_list) no_cert_found) (
      and_then (ask (not x509.imports) no_cert_found)
        (ask (not (x509.check_hostname server)) cert_hostname_mismatch))

  check_fingerprint_lem :
      (digest : Option Text) (w : List SslStatus)
      → verdict (check_fingerprint (listening base answer) digest w) ≡ (
        w ++ up_to_stop answer (fingerprint_problems base.expected_fingerprint digest),
        all_continue answer (fingerprint_problems base.expected_fingerprint digest),
      )
  unfolding check_fingerprint
  check_fingerprint_lem none w = ask_if_lem answer true base generic_error w
  check_fingerprint_lem (some digest) w = rw (mismatches_lem (listening base answer) digest) (
      ask_if_lem answer (is_other base.expected_fingerprint digest) (with_digest base digest)
        cert_fingerprint_mismatch w)

  check_x509_lem :
      (x509 : Option X509) (server : Text)
      → Asks answer
          (λ w. verdict (check_x509 (listening base answer) x509 server w))
          (x509_problems base.expected_fingerprint x509 server)
  unfolding check_x509
  check_x509_lem none server = record { asks = λ w. rw (append-nil w) }
  check_x509_lem (some x509) server =
      then_verdict answer (listening base answer) (check_names (listening base answer) x509 server)
        (check_fingerprint (listening base answer) x509.fingerprint) (name_problems x509 server)
        (fingerprint_problems base.expected_fingerprint x509.fingerprint)
        (check_names-Asks x509 server) (record { asks = check_fingerprint_lem x509.fingerprint })

  -- With GnuTLS the program is asked about the problems of the server in their order, up to the
  -- first at which it does not answer to continue; the certificate is accepted exactly if it does so
  -- at all of them. Its answer is taken to depend on the problem only.
  pub verify_certificate-problems :
      (w : List SslStatus) (peer : Peer) (server : Text) (now later : ℕ)
      → verdict (verify_certificate (listening base answer) w peer server now later) ≡ (
        w ++ up_to_stop answer (problems base.expected_fingerprint peer server now later),
        all_continue answer (problems base.expected_fingerprint peer server now later),
      )
  unfolding verify_certificate
  verify_certificate-problems w peer server now later =
      (then_verdict answer (listening base answer)
          (verify_peers (listening base answer) peer now later)
          (check_x509 (listening base answer) peer.x509 server) (peer_problems peer now later)
          (x509_problems base.expected_fingerprint peer.x509 server)
          (verify_peers-Asks peer now later) (check_x509_lem peer.x509 server)).asks
        w
