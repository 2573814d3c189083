-- ===== src/Auth/Base64/Dotless.antt =====
-- auth/JwtValidator.cpp: no dot in the text that Base64UrlEncode makes, so that a token has its parts.
use distributed_key_value_st.Base.{
  ℕ, ◌%◌, ◌≡◌, ◌≢◌, refl, not, List, [], ◌∷◌, All, arith, true, ◌==◌, ==_iff,
}
use distributed_key_value_st.Auth.Base64.{base64_url_encode, b64_char, to_url}
use distributed_key_value_st.Auth.Base64.RoundTrip.{
  all_below, all_below_lem, not-true, b64_char_mod, url_char, encode_one, encode_two, encode_three,
}

dotless_all : all_below (λ v. not (url_char v == b'.')) 64 ≡ true
unfolding to_url b64_char
dotless_all = refl

url_char-dotless : (v : ℕ) → url_char v ≢ b'.'
url_char-dotless v = rw (b64_char_mod v) (λ same.
    let yes_dot = (==_iff (url_char (v % 64)) b'.').1 same in
    let no_dot =
      not-true (url_char (v % 64) == b'.')
        (all_below_lem (λ v. not (url_char v == b'.')) 64 (v % 64) dotless_all (omega arith)) in
    cc)

nothing_encoded : base64_url_encode [] ≡ []
unfolding base64_url_encode
nothing_encoded = refl

pub base64_url_encode-dotless : (bytes : List ℕ) → All (λ c. c ≢ b'.') (base64_url_encode bytes)
base64_url_encode-dotless [] = rw nothing_encoded tt
base64_url_encode-dotless (a ∷ []) =
    rw (encode_one a) (url_char-dotless _, (url_char-dotless _, tt))
base64_url_encode-dotless (a ∷ b ∷ []) =
    rw (encode_two a b) (url_char-dotless _, (url_char-dotless _, (url_char-dotless _, tt)))
base64_url_encode-dotless (a ∷ b ∷ c ∷ bytes) = rw (encode_three a b c bytes) (
  url_char-dotless _,
  (url_char-dotless _, (url_char-dotless _, (url_char-dotless _, base64_url_encode-dotless bytes))),
)
