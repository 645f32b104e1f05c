-- ===== src/Ssl/Openssl/Verdict.antt =====
-- What loudmouth/lm-ssl-openssl.c makes of a certificate.
use mathlib.Core.List.{append_assoc}
use loudmouth.Base.{
  ◌≡◌, refl, ap, ◌∙◌, Bool, true, false, Bool-cases, Option-cases, inl, inr, ◌&&◌, List, [], ◌∷◌,
  ◌++◌, Option, none, some, if◌then◌else◌, Text, length,
}
use loudmouth.Ssl.{
  SslStatus, cert_hostname_mismatch, cert_fingerprint_mismatch, SslResponse, continues, SslBase,
  ask_if, mismatches, with_digest,
}
use loudmouth.Ssl.Reports.{
  listening, verdict, all_continue, up_to_stop, if_there, is_other, mismatches_lem, ask_if_lem,
}
use loudmouth.Ssl.Openssl.Problems.{
  IsShort, others, problem_of, is_other_name, other_problems, problems, status_of-problem_of,
  misnamed-is_other_name,
}
use loudmouth.Ssl.Openssl.{Peer, ask_result, checks, take_digest, verify_certificate}

module _ (answer : SslStatus → SslResponse) where
  -- What the program is asked: about the fingerprint, and if it goes on, about all else.
  abbrev pub asked : Bool → List SslStatus → List SslStatus
  asked mismatch rest =
      if_there mismatch cert_fingerprint_mismatch
      ++ (if all_continue answer (if_there mismatch cert_fingerprint_mismatch) then rest else [])

  -- A single problem is asked about in any case.
  up_to_stop_one :
      (there : Bool) (status : SslStatus)
      → up_to_stop answer (if_there there status) ≡ if_there there status
  up_to_stop_one false status = refl
  up_to_stop_one true status = elim (Bool-cases (continues (answer status))) [
    | inl on ↦ rw on
    | inr stopped ↦ rw stopped
  ]

  others_lem :
      (base : SslBase (List SslStatus)) (problem : Option SslStatus) (other_name : Bool)
      (w : List SslStatus)
      → (let (w2, trusted) = ask_result (listening base answer) problem w in
          let (w3, named) = ask_if other_name (listening base answer) cert_hostname_mismatch w2 in
          ◌≡◌ {A = List SslStatus × Bool}
            (w3, trusted && named)
            (w ++ others problem other_name, all_continue answer (others problem other_name)))
  unfolding ask_result ask_if
  others_lem base none other_name w =
      ask_if_lem answer other_name base cert_hostname_mismatch w
      ∙ rw (up_to_stop_one other_name cert_hostname_mismatch)
  others_lem base (some status) other_name w =
      ap (λ (r : List SslStatus × Bool). (r.0, continues (answer status) && r.1))
        (ask_if_lem answer other_name base cert_hostname_mismatch (w ++ status ∷ []))
      ∙ ap
          (λ (l : List SslStatus). (
            l,
            continues (answer status)
                && all_continue answer (if_there other_name cert_hostname_mismatch),
          ))
          (append_assoc w (status ∷ [])
              (up_to_stop answer (if_there other_name cert_hostname_mismatch))
            ∙ ap (λ l. w ++ status ∷ l) (up_to_stop_one other_name cert_hostname_mismatch))

  checks_lem :
      (base : SslBase (List SslStatus)) (mismatch : Bool) (problem : Option SslStatus)
      (other_name : Bool) (w : List SslStatus)
      → verdict (checks (listening base answer) w mismatch problem other_name) ≡ (
        w ++ asked mismatch (others problem other_name),
        all_continue answer
            (if_there mismatch cert_fingerprint_mismatch ++ others problem other_name),
      )
  unfolding checks ask_if
  checks_lem base false problem other_name w = others_lem base problem other_name w
  checks_lem base true problem other_name w =
      let rest = others_lem base problem other_name (w ++ cert_fingerprint_mismatch ∷ []) in
      elim (Bool-cases (continues (answer cert_fingerprint_mismatch))) [
        | inl on ↦ rw on (
            rest ∙ rw (append_assoc w (cert_fingerprint_mismatch ∷ []) (others problem other_name)))
        | inr stopped ↦ rw stopped
      ]

  take_digest_lem :
      (base : SslBase (List SslStatus)) (digest : Text)
      → (there : SslBase (List SslStatus)) × (take_digest (listening base answer) digest
          ≡ listening there answer)
        × (mismatches (listening there answer) (length digest)
            ≡ is_other base.expected_fingerprint digest)
  unfolding take_digest mismatches
  take_digest_lem base digest = elim (Option-cases base.expected_fingerprint) [
    | inl absent ↦ (base, rw absent, rw absent)
    | inr (expected, present) ↦
        (with_digest base digest, rw present, mismatches_lem (listening base answer) digest)
  ]

  -- With OpenSSL the program is asked about a fingerprint that is not the one that is expected; if
  -- it answers to continue, or there is nothing to ask, it is asked about the result of the
  -- verification, if OpenSSL's number for it stands for a problem, and about a common name that is
  -- not taken for the server's; it is asked nothing about a common name that is missing. The
  -- certificate is accepted exactly if it answers to continue at each of these. Its answer is taken
  -- to depend on the problem only, and the common name is as short as the buffer for it.
  pub verify_certificate-asked :
      (base : SslBase (List SslStatus)) (w : List SslStatus) (peer : Peer) (server : Text)
      → IsShort peer.common_name
      → verdict (verify_certificate (listening base answer) w peer server) ≡ (
        w ++ asked (is_other base.expected_fingerprint peer.digest) (other_problems peer server),
        all_continue answer (problems base.expected_fingerprint peer server),
      )
  unfolding verify_certificate
  verify_certificate-asked base w peer server short =
      let (there, taken, found) = take_digest_lem base peer.digest in
      rw
        (
          taken,
          found,
          status_of-problem_of peer.verify_result,
          misnamed-is_other_name peer.common_name server short,
        )
        (checks_lem there (is_other base.expected_fingerprint peer.digest)
          (problem_of peer.verify_result) (is_other_name peer.common_name server) w)
