-- ===== src/Auth/Base64/RoundTrip.antt =====
-- auth/JwtValidator.cpp: Base64UrlDecode reads back what Base64UrlEncode writes.
use distributed_key_value_st.Base.{
  ℕ, zero, suc, ◌+◌, ◌*◌, ◌/◌, ◌%◌, ◌^◌, ◌<◌, ◌≡◌, refl, ap, ◌∙◌, ◌&&◌, Bool, true, false, not,
  ==_iff, Option-cases, none, some, List, [], ◌∷◌, map, ◌==◌, Text, is_empty, All, arith,
  Bool-cases, inl, inr,
}
use distributed_key_value_st.Auth.Base64.{
  b64_char, encode_groups, to_url, strip_padding, base64_url_encode, from_url, pad, decoding,
  decode_group, decode_groups, base64_url_decode,
}

-- A test on all numbers below a bound.
abbrev pub all_below : (ℕ → Bool) → ℕ → Bool
all_below p zero = true
all_below p (suc n) = p n && all_below p n

both : (a b : Bool) → (a && b) ≡ true → (a ≡ true) × (b ≡ true)
both true b h = (refl, h)
both false b h = cc

pub not-true : (b : Bool) → not b ≡ true → b ≡ false
not-true true h = cc
not-true false h = refl

pub all_below_lem : (p : ℕ → Bool) (n i : ℕ) → all_below p n ≡ true → i < n → p i ≡ true
all_below_lem p zero i h k = absurd (omega arith)
all_below_lem p (suc n) i h k = elim (Bool-cases (i == n)) [
  | inl last ↦ let same : i ≡ n = ground arith in rw same (both (p n) (all_below p n) h).0
  | inr before ↦ all_below_lem p n i (both (p n) (all_below p n) h).1 (ground arith)
]

-- The character that stands for six bits in the text of a token.
abbrev pub url_char : ℕ → ℕ
url_char v = to_url (b64_char v)

-- The entry of the decoding table is this number.
abbrev stands_for : ℕ → ℕ → Bool
stands_for c v = elim (decoding c) [ none ↦ false | some w ↦ w == v ]

stands_for_lem : (c v : ℕ) → stands_for c v ≡ true → decoding c ≡ some v
stands_for_lem c v h = elim (Option-cases (decoding c)) [
  | inl nothing ↦ let bad : false ≡ true = rw (nothing, stands_for) at h in cc
  | inr (w, value) ↦
      let same : w ≡ v = (==_iff w v).0 (rw (value, stands_for) at h) in value ∙ ap some same
]

decoded_all : all_below (λ v. stands_for (from_url (url_char v)) v) 64 ≡ true
unfolding decoding from_url to_url b64_char
decoded_all = refl

plain_all : all_below (λ v. not (url_char v == b'=')) 64 ≡ true
unfolding to_url b64_char
plain_all = refl

pub b64_char_mod : (v : ℕ) → b64_char v ≡ b64_char (v % 64)
unfolding b64_char
b64_char_mod v = let same : v % 64 % 64 ≡ v % 64 = omega arith in rw (same, b64_char) refl

decoding-url_char : (v : ℕ) → decoding (from_url (url_char v)) ≡ some (v % 64)
decoding-url_char v = rw (b64_char_mod v) (
    stands_for_lem (from_url (url_char (v % 64))) (v % 64) (
      all_below_lem (λ v. stands_for (from_url (url_char v)) v) 64 (v % 64) decoded_all
        (omega arith)))

url_char-plain : (v : ℕ) → (url_char v == b'=') ≡ false
url_char-plain v = rw (b64_char_mod v) (
    not-true (url_char (v % 64) == b'=')
      (all_below_lem (λ v. not (url_char v == b'=')) 64 (v % 64) plain_all (omega arith)))

strip_padding-url_char :
    (v : ℕ) (s : Text) → strip_padding (url_char v ∷ s) ≡ url_char v ∷ strip_padding s
unfolding strip_padding
strip_padding-url_char v s = rw (url_char-plain v) refl

bytes_of_three :
    (a b c : ℕ)
    → a < 256
    → b < 256
    → c < 256
    → let val = a * 2 ^ 16 + b * 2 ^ 8 + c in
      (val / 2 ^ 18 % 64 * 4 + val / 2 ^ 12 % 64 / 16 ≡ a)
      × (val / 2 ^ 12 % 64 % 16 * 16 + val / 2 ^ 6 % 64 / 4 ≡ b)
      × (val / 2 ^ 6 % 64 % 4 * 64 + val % 64 ≡ c)
bytes_of_three a b c h k l = (omega arith, omega arith, omega arith)

-- The characters that three bytes end up as.
abbrev pub url_group : ℕ → Text → Text
url_group val s =
    url_char (val / 2 ^ 18) ∷ url_char (val / 2 ^ 12) ∷ url_char (val / 2 ^ 6) ∷ url_char val ∷ s

strip_padding-url_group :
    (val : ℕ) (s : Text) → strip_padding (url_group val s) ≡ url_group val (strip_padding s)
strip_padding-url_group val s =
    rw
      (
        strip_padding-url_char (val / 2 ^ 18),
        strip_padding-url_char (val / 2 ^ 12),
        strip_padding-url_char (val / 2 ^ 6),
        strip_padding-url_char val,
      )
      refl

strip_padding-one : strip_padding (to_url b'=' ∷ []) ≡ []
unfolding strip_padding to_url is_empty
strip_padding-one = refl

strip_padding-two : strip_padding (to_url b'=' ∷ to_url b'=' ∷ []) ≡ []
unfolding strip_padding to_url is_empty
strip_padding-two = refl

pub encode_one :
    (a : ℕ)
    → base64_url_encode (a ∷ [])
      ≡ url_char (a * 2 ^ 16 / 2 ^ 18) ∷ url_char (a * 2 ^ 16 / 2 ^ 12) ∷ []
unfolding base64_url_encode
encode_one a =
    strip_padding-url_char (a * 2 ^ 16 / 2 ^ 18)
      (url_char (a * 2 ^ 16 / 2 ^ 12) ∷ to_url b'=' ∷ to_url b'=' ∷ [])
    ∙ ap (◌∷◌ (url_char (a * 2 ^ 16 / 2 ^ 18))) (
        strip_padding-url_char (a * 2 ^ 16 / 2 ^ 12) (to_url b'=' ∷ to_url b'=' ∷ [])
        ∙ ap (◌∷◌ (url_char (a * 2 ^ 16 / 2 ^ 12))) strip_padding-two)

pub encode_two :
    (a b : ℕ)
    → let val = a * 2 ^ 16 + b * 2 ^ 8 in
      base64_url_encode (a ∷ b ∷ [])
      ≡ url_char (val / 2 ^ 18) ∷ url_char (val / 2 ^ 12) ∷ url_char (val / 2 ^ 6) ∷ []
unfolding base64_url_encode
encode_two a b =
    let val = a * 2 ^ 16 + b * 2 ^ 8 in
    let last = to_url b'=' ∷ [] in
    strip_padding-url_char (val / 2 ^ 18) (url_char (val / 2 ^ 12) ∷ url_char (val / 2 ^ 6) ∷ last)
    ∙ ap (◌∷◌ (url_char (val / 2 ^ 18))) (
        strip_padding-url_char (val / 2 ^ 12) (url_char (val / 2 ^ 6) ∷ last)
        ∙ ap (◌∷◌ (url_char (val / 2 ^ 12))) (
            strip_padding-url_char (val / 2 ^ 6) last
            ∙ ap (◌∷◌ (url_char (val / 2 ^ 6))) strip_padding-one))

pub encode_three :
    (a b c : ℕ) (bytes : List ℕ)
    → base64_url_encode (a ∷ b ∷ c ∷ bytes)
      ≡ url_group (a * 2 ^ 16 + b * 2 ^ 8 + c) (base64_url_encode bytes)
unfolding base64_url_encode
encode_three a b c bytes =
    strip_padding-url_group (a * 2 ^ 16 + b * 2 ^ 8 + c) (map to_url (encode_groups bytes))

decode_three :
    (v0 v1 v2 v3 : ℕ) (s : Text)
    → base64_url_decode (url_char v0 ∷ url_char v1 ∷ url_char v2 ∷ url_char v3 ∷ s)
      ≡ (v0 % 64 * 4 + v1 % 64 / 16)
        ∷ (v1 % 64 % 16 * 16 + v2 % 64 / 4)
        ∷ (v2 % 64 % 4 * 64 + v3 % 64)
        ∷ base64_url_decode s
unfolding base64_url_decode pad
decode_three v0 v1 v2 v3 s =
    let group : decode_group (from_url (url_char v0)) (from_url (url_char v1))
          (from_url (url_char v2)) (from_url (url_char v3))
        ≡ some (
            (v0 % 64 * 4 + v1 % 64 / 16)
            ∷ (v1 % 64 % 16 * 16 + v2 % 64 / 4)
            ∷ (v2 % 64 % 4 * 64 + v3 % 64)
            ∷ []) =
      rw
        (
          decode_group,
          decoding-url_char v0,
          decoding-url_char v1,
          decoding-url_char v2,
          decoding-url_char v3,
        )
        refl in
    rw (group, decode_groups) refl

decode_two :
    (v0 v1 v2 : ℕ)
    → base64_url_decode (url_char v0 ∷ url_char v1 ∷ url_char v2 ∷ [])
      ≡ (v0 % 64 * 4 + v1 % 64 / 16) ∷ (v1 % 64 % 16 * 16 + v2 % 64 / 4) ∷ []
unfolding base64_url_decode pad
decode_two v0 v1 v2 =
    let group : decode_group (from_url (url_char v0)) (from_url (url_char v1))
          (from_url (url_char v2)) b'='
        ≡ some ((v0 % 64 * 4 + v1 % 64 / 16) ∷ (v1 % 64 % 16 * 16 + v2 % 64 / 4) ∷ []) =
      rw (decode_group, decoding-url_char v0, decoding-url_char v1, decoding-url_char v2) refl in
    rw (group, decode_groups) refl

decode_one :
    (v0 v1 : ℕ)
    → base64_url_decode (url_char v0 ∷ url_char v1 ∷ []) ≡ (v0 % 64 * 4 + v1 % 64 / 16) ∷ []
unfolding base64_url_decode pad
decode_one v0 v1 =
    let group : decode_group (from_url (url_char v0)) (from_url (url_char v1)) b'=' b'='
        ≡ some ((v0 % 64 * 4 + v1 % 64 / 16) ∷ []) =
      rw (decode_group, decoding-url_char v0, decoding-url_char v1) refl in
    rw (group, decode_groups) refl

nothing_decoded : base64_url_decode (base64_url_encode []) ≡ []
unfolding base64_url_decode base64_url_encode
nothing_decoded = refl

-- Base64UrlDecode gives back every list of bytes that Base64UrlEncode has encoded.
pub base64_url_decode-encode :
    (bytes : List ℕ)
    → All (λ b. b < 256) bytes
    → base64_url_decode (base64_url_encode bytes) ≡ bytes
base64_url_decode-encode [] h = nothing_decoded
base64_url_decode-encode (a ∷ []) h =
    let first : a * 2 ^ 16 / 2 ^ 18 % 64 * 4 + a * 2 ^ 16 / 2 ^ 12 % 64 / 16 ≡ a = omega arith in
    ap base64_url_decode (encode_one a)
    ∙ decode_one (a * 2 ^ 16 / 2 ^ 18) (a * 2 ^ 16 / 2 ^ 12)
    ∙ ap (λ x. x ∷ []) first
base64_url_decode-encode (a ∷ b ∷ []) h =
    let val = a * 2 ^ 16 + b * 2 ^ 8 in
    let first : val / 2 ^ 18 % 64 * 4 + val / 2 ^ 12 % 64 / 16 ≡ a = omega arith in
    let second : val / 2 ^ 12 % 64 % 16 * 16 + val / 2 ^ 6 % 64 / 4 ≡ b = omega arith in
    ap base64_url_decode (encode_two a b)
    ∙ decode_two (val / 2 ^ 18) (val / 2 ^ 12) (val / 2 ^ 6)
    ∙ rw (first, second) refl
base64_url_decode-encode (a ∷ b ∷ c ∷ bytes) h =
    let val = a * 2 ^ 16 + b * 2 ^ 8 + c in
    let (first, second, third) = bytes_of_three a b c h.0 h.1.0 h.1.1.0 in
    ap base64_url_decode (encode_three a b c bytes)
    ∙ decode_three (val / 2 ^ 18) (val / 2 ^ 12) (val / 2 ^ 6) val (base64_url_encode bytes)
    ∙ rw (first, second, third, base64_url_decode-encode bytes h.1.1.1) refl
