-- ===== src/Ssl/Openssl/Problems.antt =====
-- What may be wrong with a certificate for OpenSSL, and the tests of loudmouth/lm-ssl-openssl.c.
use loudmouth.Base.{
  ℕ, ◌<◌, ◌≡◌, refl, sym, ap, ◌∙◌, Bool, true, false, not, Bool-cases, inl, inr, List, [], ◌∷◌,
  ◌++◌, Option, none, some, if◌then◌else◌, ◌==◌, Text, length, length-take, take, take_all, str_eq,
  str_eq_iff, str_eq_self, starts_with, strstr, codes, arith,
}
use loudmouth.Ssl.{
  SslStatus, no_cert_found, untrusted_cert, cert_expired, cert_not_activated,
  cert_hostname_mismatch, cert_fingerprint_mismatch, generic_error,
}
use loudmouth.Ssl.Reports.{if_there, is_other}
use loudmouth.Ssl.Openssl.Hostname.{starts_self}
use loudmouth.Ssl.Openssl.{
  VerifyResult, verify_ok, self_signed, no_issuer, no_crl, no_leaf_signature, invalid_ca,
  not_trusted, revoked, not_yet_valid, crl_not_yet_valid, has_expired, crl_has_expired,
  another_result, Peer, is_domain, hostname_matches, status_of, misnamed,
}

-- The numbers of OpenSSL's `X509_V_OK` and so on.
abbrev number : VerifyResult → ℕ
number verify_ok = 0
number no_issuer = 2
number no_crl = 3
number not_yet_valid = 9
number has_expired = 10
number crl_not_yet_valid = 11
number crl_has_expired = 12
number self_signed = 18
number no_leaf_signature = 21
number revoked = 23
number invalid_ca = 24
number not_trusted = 27
number another_result = 1

-- Each problem, and the results that it stands for.
abbrev meanings : List (SslStatus × List ℕ)
meanings =
    (no_cert_found, 2 ∷ 3 ∷ 18 ∷ 21 ∷ [])
    ∷ (cert_not_activated, 9 ∷ 11 ∷ [])
    ∷ (cert_expired, 10 ∷ 12 ∷ [])
    ∷ (untrusted_cert, 23 ∷ 24 ∷ 27 ∷ [])
    ∷ []

abbrev is_among : ℕ → List ℕ → Bool
is_among n [] = false
is_among n (m ∷ ms) = if n == m then true else is_among n ms

-- The problem that a result stands for, a generic one if it is in no list.
abbrev problem_in : List (SslStatus × List ℕ) → ℕ → SslStatus
problem_in [] n = generic_error
problem_in ((status, results) ∷ rest) n = if is_among n results then status else problem_in rest n

abbrev pub problem_of : VerifyResult → Option SslStatus
problem_of result = if number result == 0 then none else some (problem_in meanings (number result))

pub status_of-problem_of : (result : VerifyResult) → status_of result ≡ problem_of result
unfolding status_of
status_of-problem_of verify_ok = refl
status_of-problem_of self_signed = refl
status_of-problem_of no_issuer = refl
status_of-problem_of no_crl = refl
status_of-problem_of no_leaf_signature = refl
status_of-problem_of invalid_ca = refl
status_of-problem_of not_trusted = refl
status_of-problem_of revoked = refl
status_of-problem_of not_yet_valid = refl
status_of-problem_of crl_not_yet_valid = refl
status_of-problem_of has_expired = refl
status_of-problem_of crl_has_expired = refl
status_of-problem_of another_result = refl

-- Whether a text ends with a name that does not occur in it before.
abbrev pub ends_first : Text → Text → Bool
ends_first [] server = str_eq [] server
ends_first (c ∷ cs) server =
    let later = ends_first cs server in
    if str_eq (c ∷ cs) server then true else if starts_with (c ∷ cs) server then false else later

-- Whether a common name is taken for that of a server: it is the name, or, if it begins with a star
-- and a dot, it ends with the name, which does not occur in it before.
abbrev pub fits : Text → Text → Bool
fits cn server = if starts_with cn (codes "*.") then ends_first cn server else str_eq cn server

-- Whether there is a common name that is another one.
abbrev pub is_other_name : Option Text → Text → Bool
is_other_name none server = false
is_other_name (some cn) server = not (fits cn server)

-- A common name, with the byte behind it, has room in 63 bytes.
abbrev pub IsShort : Option Text → Type 0
IsShort none = Unit {0}
IsShort (some cn) = length cn < 63

same_text : (a b : Text) → str_eq a b ≡ true → a ≡ b
same_text a b h = (str_eq_iff a b).0 h

-- A short text is compared as a whole.
compared : (d server : Text) → length d < 63 → str_eq (take 63 server) (take 63 d) ≡ str_eq d server
compared d server short =
    let whole : take 63 d ≡ d = take_all d 63 (omega (arith, short)) in
    ap (str_eq (take 63 server)) whole ∙ elim (Bool-cases (str_eq d server)) [
      | inl same ↦
          let e = same_text d server same in
          ap (λ (s : Text). str_eq (take 63 s) d) (sym e)
          ∙ ap (λ (t : Text). str_eq t d) whole
          ∙ (str_eq_self d ∙ sym same)
      | inr other ↦ elim (Bool-cases (str_eq (take 63 server) d)) [
        | inl cut ↦
            let e = same_text (take 63 server) d cut in
            let size = ap length e in
            let all : take 63 server ≡ server =
              take_all server 63 (omega (arith, size, length-take 63 server, short)) in
            let again : str_eq d server ≡ true = ap (str_eq d) (sym all ∙ e) ∙ str_eq_self d in cc
        | inr differ ↦ differ ∙ sym other
      ]
    ]

found_lem :
    (server : Text) (starts same ends : Bool) (d : Text) (later : Option Text)
    → is_domain server (some d) ≡ same
    → (same ≡ true → starts ≡ true)
    → is_domain server later ≡ ends
    → is_domain server (if starts then some d else later)
      ≡ (if same then true else if starts then false else ends)
found_lem server true true ends d later h k l = h
found_lem server true false ends d later h k l = h
found_lem server false true ends d later h k l = let no : false ≡ true = k refl in cc
found_lem server false false ends d later h k l = l

same_starts : (t server : Text) → str_eq t server ≡ true → starts_with t server ≡ true
same_starts t server h =
    ap (λ (s : Text). starts_with t s) (sym (same_text t server h)) ∙ starts_self t

true_first : (a b : Bool) → (if a then true else if b then false else false) ≡ a
true_first true b = refl
true_first false true = refl
true_first false false = refl

is_domain-strstr :
    (t server : Text) → length t < 63 → is_domain server (strstr t server) ≡ ends_first t server
unfolding strstr
is_domain-strstr [] server short =
    found_lem server (starts_with [] server) (str_eq [] server) false [] none
      (compared [] server short) (same_starts [] server) refl
    ∙ true_first (str_eq [] server) (starts_with [] server)
is_domain-strstr (c ∷ cs) server short =
    found_lem server (starts_with (c ∷ cs) server) (str_eq (c ∷ cs) server) (ends_first cs server)
      (c ∷ cs) (strstr cs server) (compared (c ∷ cs) server short) (same_starts (c ∷ cs) server)
      (is_domain-strstr cs server (omega (arith, short)))

hostname_matches-fits :
    (cn server : Text) → length cn < 63 → hostname_matches cn server ≡ fits cn server
unfolding hostname_matches
hostname_matches-fits cn server short = elim (Bool-cases (starts_with cn (codes "*."))) [
  | inl star ↦ rw star (is_domain-strstr cn server short)
  | inr plain ↦ rw plain (compared cn server short)
]

pub misnamed-is_other_name :
    (cn : Option Text) (server : Text) → IsShort cn → misnamed cn server ≡ is_other_name cn server
unfolding misnamed
misnamed-is_other_name none server short = refl
misnamed-is_other_name (some cn) server short = ap not (hostname_matches-fits cn server short)

-- What is wrong with the certificate besides its fingerprint.
abbrev pub others : Option SslStatus → Bool → List SslStatus
others none other_name = if_there other_name cert_hostname_mismatch
others (some status) other_name = status ∷ if_there other_name cert_hostname_mismatch

-- What the program is asked about after the fingerprint, at most.
abbrev pub other_problems : Peer → Text → List SslStatus
other_problems peer server =
    others (problem_of peer.verify_result) (is_other_name peer.common_name server)

-- All that the program may be asked about.
abbrev pub problems : Option Text → Peer → Text → List SslStatus
problems expected peer server =
    if_there (is_other expected peer.digest) cert_fingerprint_mismatch ++ other_problems peer server
