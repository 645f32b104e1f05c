-- ===== src/Sasl/Rfc.antt =====
-- The DIGEST-MD5 answers of loudmouth/lm-sasl.c against the formulas of RFC 2831, and the check of
-- the server's answer.
use loudmouth.Base.{
  ℕ, ◌==◌, Bool, not, ◌&&◌, ◌≡◌, refl, ap, ◌∙◌, true, false, List, [], ◌∷◌, ◌++◌, Option, none,
  some, arith, Text, codes, str_eq, str_eq_iff, opt_str_eq, if◌then◌else◌,
}
use loudmouth.Sasl.Challenge.{Table, lookup}
use loudmouth.Sasl.Digest.{
  generate_cnonce, make_a1, digest_response, expected_rspauth, realm_of, prepare_with, check_with,
  prepare_response, response_message, check_server_response, hex_text,
}
use loudmouth.Sasl.{AuthParameters, Sasl, sends, Env, report, digest_md5_sent_final_response}

module _ (env : Env) where
  -- `{ a, b }` of the RFC: two texts with a colon between them.
  abbrev joined : Text → Text → Text
  joined a b = a ++ b':' ∷ b

  -- HEX (H (s))
  abbrev hex_hash : Text → Text
  hex_hash s = hex_text (env.md5 s)

  -- A1 = { H ({ username, realm, passwd }), nonce, cnonce }
  pub rfc_a1 : AuthParameters → Text → Text → Text → Text
  rfc_a1 params realm nonce cnonce =
      joined (env.md5 (joined params.username (joined realm params.password))) (joined nonce cnonce)

  -- HEX (KD (HEX (H (A1)), { nonce, nc, cnonce, qop, HEX (H (A2)) })), with KD (k, s) = H ({ k, s })
  pub rfc_response_value : AuthParameters → Text → Text → Text → Text → Text
  unfolding rfc_a1
  rfc_response_value params realm nonce cnonce a2 = hex_hash (
      joined (hex_hash (rfc_a1 params realm nonce cnonce)) (
        joined nonce
          (joined (codes "00000001") (joined cnonce (joined (codes "auth") (hex_hash a2))))))

  -- Copying the digest over the first 16 bytes gives A1.
  make_a1-rfc :
      (params : AuthParameters) (realm nonce cnonce : Text)
      → make_a1 env params realm nonce cnonce ≡ rfc_a1 params realm nonce cnonce
  unfolding make_a1 rfc_a1
  make_a1-rfc params realm nonce cnonce = refl

  expected_rspauth-rfc :
      (params : AuthParameters) (realm nonce cnonce : Text)
      → expected_rspauth env params realm nonce cnonce
        ≡ rfc_response_value params realm nonce cnonce (codes ":xmpp/" ++ realm)
  unfolding expected_rspauth rfc_response_value
  expected_rspauth-rfc params realm nonce cnonce = refl

-- The directives of a response, `name=value` with commas between them.
pub directives : List (Text × Text) → Text
directives [] = []
directives ((name, value) ∷ []) = name ++ b'=' ∷ value
directives ((name, value) ∷ d ∷ ds) = name ++ b'=' ∷ (value ++ b',' ∷ directives (d ∷ ds))

-- The characters that are escaped between quotes.
abbrev is_special : ℕ → Bool
is_special c = if c == b'"' then true else c == b'\\'

abbrev pub escaped : Text → Text
escaped [] = []
escaped (c ∷ cs) = let later = escaped cs in if is_special c then b'\\' ∷ c ∷ later else c ∷ later

-- A text in which nothing is escaped.
abbrev pub is_plain : Text → Bool
is_plain [] = true
is_plain (c ∷ cs) = not (is_special c) && is_plain cs

-- The quoted-string of a text.
pub quoted : Text → Text
quoted t = b'"' ∷ (escaped t ++ b'"' ∷ [])

-- The digest-uri of a host.
abbrev pub digest_uri : Text → Text
digest_uri host = codes "xmpp/" ++ host

-- The whole response that the RFC asks for, for a host and a realm, in the order of the code.
pub rfc_response : Env → AuthParameters → Text → Text → Text → Text → Text
unfolding directives quoted
rfc_response env params host realm nonce cnonce = directives (
    (codes "username", quoted params.username)
    ∷ (codes "realm", quoted realm)
    ∷ (codes "digest-uri", quoted (digest_uri host))
    ∷ (codes "nonce", quoted nonce)
    ∷ (codes "nc", codes "00000001")
    ∷ (codes "cnonce", quoted cnonce)
    ∷ (codes "qop", codes "auth")
    ∷ (codes "charset", codes "utf-8")
    ∷ (
      codes "response",
      rfc_response_value env params realm nonce cnonce (codes "AUTHENTICATE:" ++ digest_uri host),
    )
    ∷ [])

-- What the server answers by the RFC, if it knows the password.
abbrev pub rfc_rspauth : Env → AuthParameters → Text → Text → Text → Text → Text
rfc_rspauth env params host realm nonce cnonce =
    rfc_response_value env params realm nonce cnonce (b':' ∷ digest_uri host)

prepare_response_lem :
    (env : Env) (s : Sasl) (challenge : Table) (params : AuthParameters) (nonce : Text)
    → s.auth_params ≡ some params
    → lookup (codes "nonce") challenge ≡ some nonce
    → let realm = realm_of env s challenge in
      prepare_response env s challenge ≡ (
        record s {
          digest_md5_rspauth =
              some (rfc_rspauth env params realm realm nonce (generate_cnonce env));
        },
        [],
        some (digest_response env params realm nonce (generate_cnonce env)),
      )
unfolding prepare_response prepare_with
prepare_response_lem env s challenge params nonce known fresh =
    let realm = realm_of env s challenge in
    let cnonce = generate_cnonce env in
    let text = digest_response env params realm nonce cnonce in
    ap (λ p. prepare_with env s challenge p (lookup (codes "nonce") challenge)) known
    ∙ ap (prepare_with env s challenge (some params)) fresh
    ∙ ap (λ expected. (record s { digest_md5_rspauth = some expected }, [], some text))
        (expected_rspauth-rfc env params realm nonce cnonce)

str_eq_comm : (a b : Text) → str_eq a b ≡ str_eq b a
str_eq_comm a b = ground (arith, str_eq_iff a b, str_eq_iff b a)

check_with_lem :
    (env : Env) (s : Sasl) (expected : Text) (answer : Option Text)
    → s.digest_md5_rspauth ≡ some expected
    → check_with env s answer ≡ (
        if opt_str_eq answer expected
        then (if env.send (response_message env)
            then (
              record s { state = digest_md5_sent_final_response },
              sends (response_message env) ∷ [],
              true,
            )
            else (s, sends (response_message env) ∷ [], false))
        else (s, report s true (some (codes "server error")), false))
unfolding check_with
check_with_lem env s expected none h = refl
check_with_lem env s expected (some rspauth) h = ground (arith, h, str_eq_comm expected rspauth)

-- What the check of the server's answer comes to, after a response has been prepared with
-- credentials and a nonce: the exchange goes on, by an empty response, only if the answer is the one
-- of the RFC for the credentials, realm and nonces of that response, with the realm as the host too,
-- and the empty response can be sent. If it is any other answer, or none, the state stays as it is and nothing is sent, but the
-- result handler, if one is set, is called, and called with success.
pub check_server_response_rfc :
    (env later : Env) (s : Sasl) (challenge answer : Table) (params : AuthParameters) (nonce : Text)
    → s.auth_params ≡ some params
    → lookup (codes "nonce") challenge ≡ some nonce
    → let prepared = (prepare_response env s challenge).0 in
      let realm = realm_of env s challenge in
      let rspauth = rfc_rspauth env params realm realm nonce (generate_cnonce env) in
      check_server_response later prepared answer ≡ (
        if opt_str_eq (lookup (codes "rspauth") answer) rspauth
        then (if later.send (response_message later)
            then (
              record prepared { state = digest_md5_sent_final_response },
              sends (response_message later) ∷ [],
              true,
            )
            else (prepared, sends (response_message later) ∷ [], false))
        else (prepared, report prepared true (some (codes "server error")), false))
unfolding check_server_response
check_server_response_rfc env later s challenge answer params nonce known fresh =
    rw (prepare_response_lem env s challenge params nonce known fresh)
      (check_with_lem later _ _ _ refl)
