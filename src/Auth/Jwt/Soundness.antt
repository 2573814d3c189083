-- ===== src/Auth/Jwt/Soundness.antt =====
-- auth/JwtValidator.cpp: what Validate accepts.
use distributed_key_value_st.Base.{
  ℕ, Bool, true, false, Option, none, some, [], ◌∷◌, ◌++◌, ◌==◌, Text, codes, text_eq, text_eq_iff,
  is_empty, ◌≡◌, refl, sym, ◌∙◌, ap, ◌⊎◌, inl, inr, Bool-cases, Option-cases, arith, ==_iff,
}
use distributed_key_value_st.Base.Int.{ℤ, pos, ◌+ℤ◌, ltℤ}
use distributed_key_value_st.Base.Json.{Json}
use distributed_key_value_st.Http.Url.{cut_at}
use distributed_key_value_st.Auth.Base64.{base64_url_encode, base64_url_decode}
use distributed_key_value_st.Auth.Jwt.{
  JwtClaims, Config, parse_payload, validate_claims, no_difference, same_signature, verify_hs256,
  sig_ok, validate_parts, validate,
}

cut_at_joined :
    (c : ℕ) (s before after : Text) → cut_at c s ≡ some (before, after) → s ≡ before ++ c ∷ after
unfolding cut_at
cut_at_joined c [] before after h = cc
cut_at_joined c (a ∷ s) before after h = elim (Bool-cases (a == c)) [
  | inl found ↦
      let same : ◌≡◌ {A = Option (Text × Text)} (some ([], s)) (some (before, after)) =
        rw (found, cut_at) at h in
      let nothing : before ≡ [] = cc (same) in
      let behind : after ≡ s = cc (same) in
      let char : a ≡ c = (==_iff a c).0 found in rw (nothing, behind, char) refl
  | inr other ↦ elim (Option-cases (cut_at c s)) [
    | inl missing ↦
        let same : ◌≡◌ {A = Option (Text × Text)} none (some (before, after)) =
          rw (other, missing, cut_at) at h in
        cc
    | inr ((before', after'), cut) ↦
        let same : ◌≡◌ {A = Option (Text × Text)} (some (a ∷ before', after'))
            (some (before, after)) =
          rw (other, cut, cut_at) at h in
        let longer : before ≡ a ∷ before' = cc (same) in
        let behind : after ≡ after' = cc (same) in
        rw (longer, behind) (ap (◌∷◌ a) (cut_at_joined c s before' after' cut))
  ]
]

pub same_signature_iff : (expected sig : Text) → same_signature expected sig ≡ text_eq expected sig
unfolding same_signature no_difference text_eq
same_signature_iff [] [] = refl
same_signature_iff [] (b ∷ sig) = ground arith
same_signature_iff (a ∷ expected) [] = ground arith
same_signature_iff (a ∷ expected) (b ∷ sig) = ground (arith, same_signature_iff expected sig)

-- The claims have not run out, and they are from the configured issuer, if one is configured.
abbrev pub IsCurrent : ℤ → Config → JwtClaims → Type 0
IsCurrent now config claims =
    ((ltℤ (pos 0) claims.exp ≡ false) ⊎ (ltℤ (claims.exp +ℤ config.clock_skew_seconds) now ≡ false))
    × ((config.issuer ≡ []) ⊎ (claims.iss ≡ config.issuer))

is_empty_lem : (s : Text) → is_empty s ≡ true → s ≡ []
unfolding is_empty
is_empty_lem [] h = refl
is_empty_lem (c ∷ s) h = cc

validate_claims_lem :
    (now : ℤ) (config : Config) (claims : JwtClaims)
    → validate_claims now config claims ≡ true
    → IsCurrent now config claims
unfolding validate_claims
validate_claims_lem now config claims h =
    ground (arith, is_empty_lem config.issuer, text_eq_iff claims.iss config.issuer)

module _ (parse : Text → Option Json) (hmac : Text → Text → Text)
    (rsa_verify : Option (Text → Text → Bool)) (now : ℤ) (config : Config) where
  validate_parts_lem :
      (token header payload sig : Text)
      → let auth = validate_parts parse hmac rsa_verify now config token header payload sig in
        auth.authenticated ≡ true
        → (claims : JwtClaims) × (parse_payload parse (base64_url_decode payload) ≡ some claims)
          × (sig_ok hmac rsa_verify config (header ++ b'.' ∷ payload) sig ≡ true)
          × (validate_claims now config claims ≡ true)
          × (auth.subject ≡ claims.sub)
          × (auth.roles ≡ claims.roles)
  unfolding validate_parts
  validate_parts_lem token header payload sig h =
      elim (Option-cases (parse_payload parse (base64_url_decode payload))) [
        | inl bad ↦ let no : false ≡ true = rw (bad, validate_parts) at h in cc
        | inr (claims, good) ↦
            elim (Bool-cases (sig_ok hmac rsa_verify config (header ++ b'.' ∷ payload) sig)) [
              | inl signed ↦ elim (Bool-cases (validate_claims now config claims)) [
                | inl current ↦ (
                  claims,
                  good,
                  signed,
                  current,
                  rw (good, signed, current, validate_parts) refl,
                  rw (good, signed, current, validate_parts) refl,
                )
                | inr stale ↦
                    let no : false ≡ true = rw (good, signed, stale, validate_parts) at h in cc
              ]
              | inr forged ↦ let no : false ≡ true = rw (good, forged, validate_parts) at h in cc
            ]
      ]

  hs256_signature :
      (header_payload sig : Text)
      → config.algorithm ≡ codes "HS256"
      → sig_ok hmac rsa_verify config header_payload sig ≡ true
      → sig ≡ base64_url_encode (hmac config.secret header_payload)
  unfolding sig_ok verify_hs256
  hs256_signature header_payload sig a h =
      let expected = base64_url_encode (hmac config.secret header_payload) in
      let hs256 : text_eq config.algorithm (codes "HS256") ≡ true =
        (text_eq_iff config.algorithm (codes "HS256")).1 a in
      let same : same_signature expected sig ≡ true = rw (hs256, sig_ok) at h in
      sym ((text_eq_iff expected sig).0 (sym (same_signature_iff expected sig) ∙ same))

  -- A token that Validate accepts under HS256 is a header, a payload and the encoded HMAC of these two
  -- under the configured secret. Its payload decodes to claims that have not run out and are from the
  -- configured issuer, and the caller gets the subject and the roles of these claims.
  pub validate_lem :
      (token : Text)
      → config.algorithm ≡ codes "HS256"
      → let auth = validate parse hmac rsa_verify now config token in
        auth.authenticated ≡ true
        → (header : Text) × (payload : Text) × (claims : JwtClaims) × (token
            ≡ header
              ++ b'.'
                ∷ (payload
                    ++ b'.' ∷ base64_url_encode (hmac config.secret (header ++ b'.' ∷ payload))))
          × (parse_payload parse (base64_url_decode payload) ≡ some claims)
          × IsCurrent now config claims
          × (auth.subject ≡ claims.sub)
          × (auth.roles ≡ claims.roles)
  unfolding validate
  validate_lem token a h = elim (Option-cases (cut_at b'.' token)) [
    | inl no_dot ↦ let no : false ≡ true = rw (no_dot, validate) at h in cc
    | inr ((header, rest), first) ↦ elim (Option-cases (cut_at b'.' rest)) [
      | inl one_dot ↦ let no : false ≡ true = rw (first, one_dot, validate) at h in cc
      | inr ((payload, sig), second) ↦
          let (claims, parses, signed, current, subject, roles) =
            validate_parts_lem token header payload sig (rw (first, second, validate) at h) in
          let sig_is = hs256_signature (header ++ b'.' ∷ payload) sig a signed in
          let parts =
            cut_at_joined b'.' token header rest first
            ∙ ap (λ r. header ++ b'.' ∷ r)
                (cut_at_joined b'.' rest payload sig second
                  ∙ ap (λ s. payload ++ b'.' ∷ s) sig_is) in
          (
            header,
            payload,
            claims,
            parts,
            parses,
            validate_claims_lem now config claims current,
            rw (first, second, validate) subject,
            rw (first, second, validate) roles,
          )
    ]
  ]
