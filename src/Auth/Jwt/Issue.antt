-- ===== src/Auth/Jwt/Issue.antt =====
-- auth/JwtValidator.cpp: Validate on the tokens that GenerateHS256Token makes.
use distributed_key_value_st.Base.{
  append_assoc, ◌<◌, Bool, true, Option, some, List, [], ◌∷◌, ◌++◌, Text, codes, All, text_eq,
  text_eq_refl, ◌≡◌, refl, ◌∙◌, ap,
}
use distributed_key_value_st.Base.Int.{ℤ}
use distributed_key_value_st.Base.Json.{Json, find_field}
use distributed_key_value_st.Http.Url.{cut_at}
use distributed_key_value_st.Http.Parser.Lines.{cut_at-first}
use distributed_key_value_st.Auth.Base64.{base64_url_encode, base64_url_decode}
use distributed_key_value_st.Auth.Base64.RoundTrip.{base64_url_decode-encode}
use distributed_key_value_st.Auth.Base64.Dotless.{base64_url_encode-dotless}
use distributed_key_value_st.Auth.Jwt.{
  JwtClaims, Config, text_value, int_value, role_list, roles_of, claims_of, parse_payload,
  role_items, claims_json, validate_claims, verify_hs256, sig_ok, validate_parts, validate,
  generate_hs256_token,
}
use distributed_key_value_st.Auth.Jwt.Soundness.{same_signature_iff}

role_list-role_items : (roles : List Text) → role_list (role_items roles) ≡ some roles
unfolding role_list role_items
role_list-role_items [] = refl
role_list-role_items (role ∷ roles) = rw (role_list-role_items roles) refl

claims_of-claims_json : (claims : JwtClaims) → claims_of (claims_json claims) ≡ some claims
unfolding claims_of claims_json text_value int_value roles_of find_field text_eq
claims_of-claims_json claims = rw (role_list-role_items claims.roles) refl

module _ (parse : Text → Option Json) (dump : Json → Text) (hmac : Text → Text → Text)
    (rsa_verify : Option (Text → Text → Bool)) (now : ℤ) (config : Config) where
  own_signature :
      (header_payload : Text)
      → config.algorithm ≡ codes "HS256"
      → sig_ok hmac rsa_verify config header_payload
          (base64_url_encode (hmac config.secret header_payload))
        ≡ true
  unfolding sig_ok verify_hs256
  own_signature header_payload a =
      let sig = base64_url_encode (hmac config.secret header_payload) in
      rw (a) (same_signature_iff sig sig ∙ text_eq_refl sig)

  validate_accepts :
      (token header payload sig : Text) (claims : JwtClaims)
      → cut_at b'.' token ≡ some (header, payload ++ b'.' ∷ sig)
      → cut_at b'.' (payload ++ b'.' ∷ sig) ≡ some (payload, sig)
      → parse_payload parse (base64_url_decode payload) ≡ some claims
      → sig_ok hmac rsa_verify config (header ++ b'.' ∷ payload) sig ≡ true
      → validate_claims now config claims ≡ true
      → validate parse hmac rsa_verify now config token ≡ record {
        authenticated = true;
        subject = claims.sub;
        raw_token = token;
        roles = claims.roles;
      }
  unfolding validate validate_parts
  validate_accepts token header payload sig claims first second read signed current =
      rw (first, second, read, signed, current, validate, validate_parts) refl

  -- Under HS256, Validate accepts a token that GenerateHS256Token makes under the same configuration,
  -- and gives the caller the subject and the roles of its claims. The claims are current, parsing reads
  -- back what is dumped of them, and the dump is of bytes.
  pub validate-generate_hs256_token :
      (claims : JwtClaims)
      → config.algorithm ≡ codes "HS256"
      → validate_claims now config claims ≡ true
      → parse (dump (claims_json claims)) ≡ some (claims_json claims)
      → All (λ b. b < 256) (dump (claims_json claims))
      → let token = generate_hs256_token dump hmac config claims in
        validate parse hmac rsa_verify now config token ≡ record {
          authenticated = true;
          subject = claims.sub;
          raw_token = token;
          roles = claims.roles;
        }
  unfolding generate_hs256_token parse_payload
  validate-generate_hs256_token claims a current parses bytes =
      let token = generate_hs256_token dump hmac config claims in
      let json = dump (claims_json claims) in
      let header_json = codes "{\"alg\":\"HS256\",\"typ\":\"JWT\"}" in
      let header = base64_url_encode header_json in
      let payload = base64_url_encode json in
      let header_payload = header ++ b'.' ∷ payload in
      let sig = base64_url_encode (hmac config.secret header_payload) in
      let joined : token ≡ header ++ b'.' ∷ (payload ++ b'.' ∷ sig) =
        append_assoc header (b'.' ∷ payload) (b'.' ∷ sig) in
      let first : cut_at b'.' token ≡ some (header, payload ++ b'.' ∷ sig) =
        ap (cut_at b'.') joined
        ∙ cut_at-first b'.' header (payload ++ b'.' ∷ sig)
            (base64_url_encode-dotless header_json) in
      let second : cut_at b'.' (payload ++ b'.' ∷ sig) ≡ some (payload, sig) =
        cut_at-first b'.' payload sig (base64_url_encode-dotless json) in
      let read : parse_payload parse (base64_url_decode payload) ≡ some claims =
        rw (base64_url_decode-encode json bytes, parses, parse_payload)
          (claims_of-claims_json claims) in
      validate_accepts token header payload sig claims first second read
        (own_signature header_payload a) current
