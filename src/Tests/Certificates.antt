-- ===== src/Tests/Certificates.antt =====
-- Tests of the model of loudmouth/lm-ssl-openssl.c and lm-ssl-gnutls.c.
use loudmouth.Base.{
  ℕ, ◌≡◌, refl, ◌+◌, true, false, List, [], ◌∷◌, none, some, codes, arith, str_eq, starts_with,
  strstr,
}
use loudmouth.Base.Counted.{takes, drops, changes}
use loudmouth.Socket.{Socket, ConnectData}
use loudmouth.Socket.Open.{create}
use loudmouth.Ssl.{
  SslStatus, cert_expired, cert_hostname_mismatch, cert_fingerprint_mismatch, generic_error,
  no_cert_found, SslResponse, response_continue, response_stop, SslBase, base_init,
}
use loudmouth.Ssl.Lifetime.{counted, changes-base_init}
use loudmouth.Ssl.Reports.{listening, verdict}
use loudmouth.Ssl.Openssl.{OpenSsl, hostname_matches, has_expired, self_signed, initialize}
use loudmouth.Ssl.Openssl
use loudmouth.Ssl.Openssl.Hostname.{hostname_matches-wildcard}
use loudmouth.Ssl.Openssl.Verdict.{verify_certificate-asked}
use loudmouth.Ssl.Gnutls
use loudmouth.Ssl.Gnutls.Verdict.{verify_certificate-problems}

-- A program that goes on only if the certificate has expired.
abbrev lenient : SslStatus → SslResponse
lenient cert_expired = response_continue
lenient _ = response_stop

abbrev base : SslBase (List SslStatus)
base = base_init (some (codes "0123456789abcdef")) none none

abbrev expired : Openssl.Peer
expired = record {
  verify_result = has_expired;
  digest = codes "0123456789abcdef";
  common_name = some (codes "example.org");
}

abbrev strange : Openssl.Peer
strange = record expired { common_name = some (codes "*.example.com") }

verify_certificate-asked_example :
    verdict
      (Openssl.verify_certificate (listening base lenient) [] strange (codes "www.example.com"))
    ≡ (cert_expired ∷ cert_hostname_mismatch ∷ [], false)
unfolding str_eq starts_with base_init
verify_certificate-asked_example =
    verify_certificate-asked lenient base [] strange (codes "www.example.com") (omega arith)

-- The name of a host is not found in a wildcard for its domain, and that of the domain is.
hostname_matches-wildcard_example :
    (hostname_matches (codes "*.example.com") (codes "example.com") ≡ true)
    × (hostname_matches (codes "*.example.com") (codes "www.example.com") ≡ false)
hostname_matches-wildcard_example =
    hostname_matches-wildcard b'e' (codes "xample.com") (codes "www") (omega arith) (omega arith)
      (omega arith) (λ e. cc)

-- The end of the domain's name is found as well.
hostname_matches_end : hostname_matches (codes "*.example.com") (codes "com") ≡ true
unfolding hostname_matches str_eq starts_with strstr
hostname_matches_end = refl

abbrev x509 : Gnutls.X509
x509 = record {
  has_list = true;
  imports = true;
  check_hostname = str_eq (codes "example.org");
  fingerprint = some (codes "0000000000000000");
}

abbrev shown : Gnutls.Peer
shown = record {
  result = Gnutls.verified;
  is_invalid = false;
  is_revoked = false;
  expiration_time = some 5;
  activation_time = some 1;
  x509 = some x509;
}

verify_certificate-problems_example :
    verdict (Gnutls.verify_certificate (listening base lenient) [] shown (codes "example.org") 7 7)
    ≡ (cert_expired ∷ cert_fingerprint_mismatch ∷ [], false)
unfolding str_eq base_init
verify_certificate-problems_example =
    verify_certificate-problems lenient base [] shown (codes "example.org") 7 7

-- A certificate that nobody verifies is two errors, one of them told twice.
no_certificate_asked :
    verdict (
      Gnutls.verify_certificate
        (listening base (λ s. response_continue))
        []
        (record shown { result = Gnutls.no_certificate; x509 = none })
        (codes "example.org")
        2
        2)
    ≡ (no_cert_found ∷ generic_error ∷ no_cert_found ∷ [], true)
unfolding Gnutls.verify_certificate
no_certificate_asked = refl

abbrev ssl : OpenSsl (List SslStatus)
ssl = record { base = base; has_ctx = true; has_ssl = false }

abbrev opening : Socket
opening = (create none (codes "example.org") 5223 (some false) none).0

abbrev connect_data : ConnectData
connect_data = record { current_addr = none; fd = some 3; io_channel = some 3 }

abbrev counting : SslBase ℕ
counting = base_init none none (some (λ w. w + 1))

changes-base_init_example :
    changes counted (some counting) 0 (takes ∷ drops ∷ drops ∷ []) ≡ (none, 1)
unfolding base_init
changes-base_init_example =
    changes-base_init none none (some (λ w. w + 1)) 0 (takes ∷ drops ∷ drops ∷ []) (omega arith)
