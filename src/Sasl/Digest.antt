-- ===== src/Sasl/Digest.antt =====
-- The DIGEST-MD5 mechanism of loudmouth/lm-sasl.c: the answer to a challenge, and the check of the
-- server's answer.
use loudmouth.Base.{
  ℕ, ◌+◌, ◌/◌, ◌%◌, Bool, true, false, not, List, [], ◌∷◌, ◌++◌, Option, none, some, Text, codes,
  opt_str_eq, ltb, drop, if◌then◌else◌,
}
use loudmouth.Node.{set_attributes, set_value}
use loudmouth.Message.{Message, response}
use loudmouth.Message
use loudmouth.Sasl.Challenge.{Table, lookup}
use loudmouth.Sasl.{
  AuthParameters, Sasl, Effect, sends, Env, sasl_auth_ns, report, shown,
  digest_md5_sent_auth_response, digest_md5_sent_final_response,
}

-- One `%x` digit, and `%02x` of a byte.
abbrev pub hex_digit : ℕ → ℕ
hex_digit d = if ltb d 10 then 48 + d else 87 + d

unfoldable pub hex_text : Text → Text
hex_text [] = []
hex_text (b ∷ bs) = hex_digit (b / 16) ∷ hex_digit (b % 16) ∷ hex_text bs

module _ (env : Env) where
  -- `sasl_md5_hex_hash`
  unfoldable pub md5_hex_hash : Text → Text
  unfolding hex_text
  md5_hex_hash value = hex_text (env.md5 value)

  -- `sasl_digest_md5_generate_cnonce`
  unfoldable pub generate_cnonce : Text
  generate_cnonce = env.base64_encode env.random

  -- `kd`, from the hash of `a1`, the nonces and `a2`.
  unfoldable pub key_digest : Text → Text → Text → Text → Text
  unfolding md5_hex_hash
  key_digest a1 nonce cnonce a2 = md5_hex_hash (
      md5_hex_hash a1
      ++ (b':'
          ∷ (nonce ++ (codes ":00000001:" ++ (cnonce ++ (codes ":auth:" ++ md5_hex_hash a2))))))

  -- `a1`: a text whose first 16 bytes the digest of the credentials is then copied over.
  unfoldable pub make_a1 : AuthParameters → Text → Text → Text → Text
  make_a1 params realm nonce cnonce =
      let digest_md5 = env.md5 (params.username ++ (b':' ∷ (realm ++ (b':' ∷ params.password)))) in
      let a1 = codes "0123456789012345:" ++ (nonce ++ (b':' ∷ cnonce)) in digest_md5 ++ drop 16 a1

  -- The parts of `sasl_md5_prepare_response` once user, nonce and realm are there: the expected
  -- answer of the server, and the response.
  unfoldable pub digest_response : AuthParameters → Text → Text → Text → Text
  unfolding make_a1 key_digest
  digest_response params realm nonce cnonce =
      let kdh =
        key_digest (make_a1 params realm nonce cnonce) nonce cnonce
          (codes "AUTHENTICATE:xmpp/" ++ realm) in
      codes "username=\""
      ++ (params.username
          ++ (codes "\",realm=\""
              ++ (realm
                  ++ (codes "\",digest-uri=\"xmpp/"
                      ++ (realm
                          ++ (codes "\",nonce=\""
                              ++ (nonce
                                  ++ (codes "\",nc=00000001,cnonce=\""
                                      ++ (cnonce
                                          ++ (codes "\",qop=auth,charset=utf-8,response="
                                              ++ kdh))))))))))

  unfoldable pub expected_rspauth : AuthParameters → Text → Text → Text → Text
  unfolding make_a1 key_digest
  expected_rspauth params realm nonce cnonce =
      key_digest (make_a1 params realm nonce cnonce) nonce cnonce (codes ":xmpp/" ++ realm)

  -- The realm of the challenge, or else the server.
  abbrev pub realm_of : Sasl → Table → Text
  realm_of s challenge = elim (lookup (codes "realm") challenge) [
    | none ↦ shown s.server
    | some realm ↦ realm
  ]

  -- `sasl_md5_prepare_response` with the credentials and the nonce that it looks up.
  unfoldable pub prepare_with :
      Sasl → Table → Option AuthParameters → Option Text → Sasl × List Effect × Option Text
  prepare_with s challenge none _ =
      (s, report s false (some (codes "no username/password provided")), none)
  prepare_with s challenge (some params) none =
      (s, report s false (some (codes "server error")), none)
  prepare_with s challenge (some params) (some nonce) =
      let realm = realm_of s challenge in
      let rspauth = expected_rspauth params realm nonce generate_cnonce in
      (
        record s { digest_md5_rspauth = some rspauth },
        [],
        some (digest_response params realm nonce generate_cnonce),
      )

  -- `sasl_md5_prepare_response`: the response is `none` on an error, which is reported.
  unfoldable pub prepare_response : Sasl → Table → Sasl × List Effect × Option Text
  prepare_response s challenge =
      prepare_with s challenge s.auth_params (lookup (codes "nonce") challenge)

  -- A `<response>` with the namespace of SASL.
  unfoldable pub response_message : Message
  response_message =
      let m = Message.new env.id none response in
      record m { node = set_attributes m.node ((codes "xmlns", some sasl_auth_ns) ∷ []) }

  -- The rest of `sasl_digest_md5_send_initial_response`, with what `prepare_response` returned.
  unfoldable pub send_response : Sasl × List Effect × Option Text → Sasl × List Effect × Bool
  unfolding response_message set_value
  send_response (s, es, none) = (s, es, false)
  send_response (s, es, some text) =
      let msg = record response_message {
        node = set_value response_message.node (some (env.base64_encode text));
      } in
      if env.send msg
      then (record s { state = digest_md5_sent_auth_response }, es ++ (sends msg ∷ []), true)
      else (s, es ++ (sends msg ∷ []), false)

  -- `sasl_digest_md5_send_initial_response`
  unfoldable pub send_initial_response : Sasl → Table → Sasl × List Effect × Bool
  send_initial_response s challenge = send_response (prepare_response s challenge)

  -- `sasl_digest_md5_check_server_response` with the `rspauth` that it looks up. The two errors
  -- are reported with `TRUE`.
  unfoldable pub check_with : Sasl → Option Text → Sasl × List Effect × Bool
  check_with s none = (s, report s true (some (codes "server error")), false)
  check_with s (some rspauth) =
      if not (opt_str_eq s.digest_md5_rspauth rspauth)
      then (s, report s true (some (codes "server error")), false)
      else if env.send response_message
      then (record s { state = digest_md5_sent_final_response }, sends response_message ∷ [], true)
      else (s, sends response_message ∷ [], false)

  -- `sasl_digest_md5_check_server_response`
  unfoldable pub check_server_response : Sasl → Table → Sasl × List Effect × Bool
  check_server_response s challenge = check_with s (lookup (codes "rspauth") challenge)
