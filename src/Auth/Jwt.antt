-- ===== src/Auth/Jwt.antt =====
-- auth/JwtValidator.hpp and JwtValidator.cpp: the check of a token and the making of one. `parse` and
-- `dump` stand for nlohmann::json, `hmac` for OpenSSL's HMAC with SHA-256, `rsa_verify` for the
-- EVP_DigestVerify calls with the key that the constructor has loaded, if it has. Numbers in a token
-- are integers, and sums of them do not overflow.
mod Tests
pub mod Soundness
pub mod Issue
use distributed_key_value_st.Base.{
  Bool, true, false, not, ◌&&◌, Option, none, some, List, [], ◌∷◌, ◌++◌, if◌then◌else◌, ◌==◌, Text,
  codes, text_eq, is_empty, length, ◌>>=◌,
}
use distributed_key_value_st.Base.Int.{ℤ, pos, ◌+ℤ◌, ltℤ}
use distributed_key_value_st.Base.Json.{
  Json, Items, Fields, number, string, array, object, done, item, end, field, find_field,
}
use distributed_key_value_st.Api.Router.{AuthContext}
use distributed_key_value_st.Http.Url.{cut_at}
use distributed_key_value_st.Auth.Base64.{base64_url_encode, base64_url_decode}

pub record JwtClaims : Type 0 where
  pub sub : Text
  pub iss : Text
  pub roles : List Text
  pub exp : ℤ
  pub iat : ℤ
  pub jti : Text

pub record Config : Type 0 where
  pub algorithm : Text
  pub secret : Text
  pub issuer : Text
  pub clock_skew_seconds : ℤ

-- j.value(key, ""), which throws on a value of another kind.
unfoldable pub text_value : Text → Fields → Option Text
unfolding find_field
text_value key fields = elim (find_field key fields) [
  | none ↦ some []
  | some (string s) ↦ some s
  | some _ ↦ none
]

-- j.value(key, int64_t{0})
unfoldable pub int_value : Text → Fields → Option ℤ
unfolding find_field
int_value key fields = elim (find_field key fields) [
  | none ↦ some (pos 0)
  | some (number n) ↦ some n
  | some _ ↦ none
]

-- The loop over the roles, with r.get<std::string>().
unfoldable pub role_list : Items → Option (List Text)
role_list done = some []
role_list (item (string s) items) = do roles ← role_list items; some (s ∷ roles)
role_list (item _ items) = none

unfoldable pub roles_of : Fields → Option (List Text)
unfolding find_field role_list
roles_of fields = elim (find_field (codes "roles") fields) [
  | some (array items) ↦ role_list items
  | _ ↦ some []
]

unfoldable pub claims_of : Json → Option JwtClaims
unfolding text_value int_value roles_of
claims_of (object fields) = do
  sub ← text_value (codes "sub") fields
  iss ← text_value (codes "iss") fields
  exp ← int_value (codes "exp") fields
  iat ← int_value (codes "iat") fields
  jti ← text_value (codes "jti") fields
  roles ← roles_of fields
  some (record { sub = sub; iss = iss; roles = roles; exp = exp; iat = iat; jti = jti })
claims_of _ = none

unfoldable pub parse_payload : (Text → Option Json) → Text → Option JwtClaims
unfolding claims_of
parse_payload parse payload_json = do j ← parse payload_json; claims_of j

-- The array of the roles and the object that GenerateHS256Token dumps.
unfoldable pub role_items : List Text → Items
role_items [] = done
role_items (role ∷ roles) = item (string role) (role_items roles)

unfoldable pub claims_json : JwtClaims → Json
unfolding role_items
claims_json claims = object (
    field (codes "sub") (string claims.sub) (
      field (codes "iss") (string claims.iss) (
        field (codes "exp") (number claims.exp) (
          field (codes "iat") (number claims.iat) (
            field (codes "jti") (string claims.jti)
              (field (codes "roles") (array (role_items claims.roles)) end))))))

unfoldable pub validate_claims : ℤ → Config → JwtClaims → Bool
unfolding is_empty text_eq
validate_claims now config claims =
    if ltℤ (pos 0) claims.exp && ltℤ (claims.exp +ℤ config.clock_skew_seconds) now
    then false
    else if not (is_empty config.issuer) && not (text_eq claims.iss config.issuer)
    then false
    else true

-- The loop of the constant-time comparison: diff stays 0 while the bytes are the same.
unfoldable pub no_difference : Text → Text → Bool
no_difference (a ∷ expected) (b ∷ sig) = a == b && no_difference expected sig
no_difference expected sig = true

unfoldable pub same_signature : Text → Text → Bool
unfolding no_difference
same_signature expected sig = length expected == length sig && no_difference expected sig

-- What Validate returns for a token that it does not accept.
abbrev pub refused : Text → AuthContext
refused token = record { authenticated = false; subject = []; raw_token = token; roles = [] }

module _ (hmac : Text → Text → Text) where
  unfoldable pub verify_hs256 : Config → Text → Text → Bool
  unfolding base64_url_encode same_signature
  verify_hs256 config header_payload sig =
      same_signature (base64_url_encode (hmac config.secret header_payload)) sig

module _ (rsa_verify : Option (Text → Text → Bool)) where
  unfoldable pub verify_rs256 : Text → Text → Bool
  unfolding base64_url_decode
  verify_rs256 header_payload sig = elim rsa_verify [
    | none ↦ false
    | some verify ↦ verify header_payload (base64_url_decode sig)
  ]

module _ (hmac : Text → Text → Text) (rsa_verify : Option (Text → Text → Bool)) where
  unfoldable pub sig_ok : Config → Text → Text → Bool
  unfolding text_eq verify_hs256 verify_rs256
  sig_ok config header_payload sig =
      if text_eq config.algorithm (codes "HS256")
      then verify_hs256 hmac config header_payload sig
      else if text_eq config.algorithm (codes "RS256")
      then verify_rs256 rsa_verify header_payload sig
      else false

module _ (parse : Text → Option Json) (hmac : Text → Text → Text)
    (rsa_verify : Option (Text → Text → Bool)) where
  -- Validate on the three parts of a token.
  unfoldable pub validate_parts : ℤ → Config → Text → Text → Text → Text → AuthContext
  unfolding base64_url_decode parse_payload sig_ok validate_claims
  validate_parts now config token header payload sig =
      elim (parse_payload parse (base64_url_decode payload)) [
        | none ↦ refused token
        | some claims ↦
            if not (sig_ok hmac rsa_verify config (header ++ b'.' ∷ payload) sig)
            then refused token
            else if not (validate_claims now config claims)
            then refused token
            else record {
              authenticated = true;
              subject = claims.sub;
              raw_token = token;
              roles = claims.roles;
            }
      ]

  unfoldable pub validate : ℤ → Config → Text → AuthContext
  unfolding cut_at validate_parts
  validate now config token = elim (cut_at b'.' token) [
    | none ↦ refused token
    | some (header, rest) ↦ elim (cut_at b'.' rest) [
      | none ↦ refused token
      | some (payload, sig) ↦ validate_parts now config token header payload sig
    ]
  ]

module _ (dump : Json → Text) (hmac : Text → Text → Text) where
  unfoldable pub generate_hs256_token : Config → JwtClaims → Text
  unfolding base64_url_encode claims_json
  generate_hs256_token config claims =
      let header = base64_url_encode (codes "{\"alg\":\"HS256\",\"typ\":\"JWT\"}") in
      let payload = base64_url_encode (dump (claims_json claims)) in
      let header_payload = header ++ b'.' ∷ payload in
      let sig = base64_url_encode (hmac config.secret header_payload) in
      header_payload ++ b'.' ∷ sig
