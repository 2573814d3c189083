-- ===== src/Auth/Jwt/Tests.antt =====
-- auth/JwtValidator.cpp: a token for one caller.
use distributed_key_value_st.Base.{
  ◌≡◌, refl, Option, none, some, [], ◌∷◌, ◌++◌, true, ap, Text, codes, text_eq, arith,
  if◌then◌else◌,
}
use distributed_key_value_st.Base.Int.{pos}
use distributed_key_value_st.Base.Json.{Json}
use distributed_key_value_st.Auth.Base64.{base64_url_encode, base64_url_decode}
use distributed_key_value_st.Auth.Jwt.{
  JwtClaims, Config, parse_payload, claims_json, validate_claims, validate, generate_hs256_token,
}
use distributed_key_value_st.Auth.Jwt.Soundness.{IsCurrent, validate_lem}
use distributed_key_value_st.Auth.Jwt.Issue.{validate-generate_hs256_token}

abbrev config : Config
config = record {
  algorithm = codes "HS256";
  secret = codes "k";
  issuer = codes "orcdb";
  clock_skew_seconds = pos 30;
}

abbrev claims : JwtClaims
claims = record {
  sub = codes "ann";
  iss = codes "orcdb";
  roles = codes "admin" ∷ [];
  exp = pos 1000;
  iat = pos 10;
  jti = codes "t1";
}

-- A JSON library that knows the text of one value, and a hash that puts the secret in front.
abbrev dump : Json → Text
dump j = codes "{}"

abbrev parse : Text → Option Json
parse s = if text_eq s (codes "{}") then some (claims_json claims) else none

abbrev hmac : Text → Text → Text
hmac secret s = secret ++ s

abbrev token : Text
token = generate_hs256_token dump hmac config claims

encoded : base64_url_encode (codes "hi?>") ≡ codes "aGk_Pg"
unfolding base64_url_encode
encoded = refl

parses : parse (dump (claims_json claims)) ≡ some (claims_json claims)
unfolding text_eq
parses = refl

current : validate_claims (pos 1020) config claims ≡ true
unfolding validate_claims
current = refl

validate-generate_hs256_token_example : validate parse hmac none (pos 1020) config token ≡ record {
  authenticated = true;
  subject = codes "ann";
  raw_token = token;
  roles = codes "admin" ∷ [];
}
validate-generate_hs256_token_example =
    validate-generate_hs256_token parse dump hmac none (pos 1020) config claims refl current parses
      (ground arith)

accepted : (validate parse hmac none (pos 1020) config token).authenticated ≡ true
accepted =
    ap (λ auth. auth.authenticated)
      (validate-generate_hs256_token parse dump hmac none (pos 1020) config claims refl current
        parses (ground arith))

validate_lem_example :
    (header : Text) × (payload : Text) × (found : JwtClaims) × (token
      ≡ header
        ++ b'.'
          ∷ (payload ++ b'.' ∷ base64_url_encode (hmac (codes "k") (header ++ b'.' ∷ payload))))
    × (parse_payload parse (base64_url_decode payload) ≡ some found)
    × IsCurrent (pos 1020) config found
    × ((validate parse hmac none (pos 1020) config token).subject ≡ found.sub)
    × ((validate parse hmac none (pos 1020) config token).roles ≡ found.roles)
validate_lem_example = validate_lem parse hmac none (pos 1020) config token refl accepted
