-- ===== src/Http/Url/Decode.antt =====
-- network/HttpParser.cpp: UrlDecode against percent-encoding.
use distributed_key_value_st.Base.{
  ℕ, ◌+◌, ◌-◌, ◌*◌, ◌/◌, ◌%◌, ◌<◌, ◌≡◌, refl, [], ◌∷◌, arith, if◌then◌else◌, ltb, Text, All,
}
use distributed_key_value_st.Http.Url.{hex_value, url_decode}

-- The digit for a number below 16.
abbrev pub hex_digit : ℕ → ℕ
hex_digit n = if ltb n 10 then b'0' + n else b'A' + n - 10

-- Percent-encoding of every byte.
abbrev pub percent_encode : Text → Text
percent_encode [] = []
percent_encode (c ∷ s) = b'%' ∷ hex_digit (c / 16) ∷ hex_digit (c % 16) ∷ percent_encode s

hex_value-hex_digit : (n : ℕ) → n < 16 → hex_value (hex_digit n) ≡ n
unfolding hex_value
hex_value-hex_digit n h = ground arith

-- UrlDecode reads back every text of bytes from its percent-encoding.
pub url_decode-percent_encode :
    (s : Text) → All (λ c. c < 256) s → url_decode (percent_encode s) ≡ s
unfolding url_decode
url_decode-percent_encode [] h = refl
url_decode-percent_encode (c ∷ s) h =
    let high = hex_value-hex_digit (c / 16) (omega arith) in
    let low = hex_value-hex_digit (c % 16) (omega arith) in
    let byte : hex_value (hex_digit (c / 16)) * 16 + hex_value (hex_digit (c % 16)) ≡ c =
      omega arith in
    rw (byte, url_decode-percent_encode s h.1)
