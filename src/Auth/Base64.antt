-- ===== src/Auth/Base64.antt =====
-- auth/JwtValidator.cpp: Base64UrlEncode and Base64UrlDecode on lists of bytes.
pub mod RoundTrip
pub mod Dotless
use distributed_key_value_st.Base.{
  ℕ, ◌+◌, ◌-◌, ◌*◌, ◌/◌, ◌%◌, ◌^◌, ◌&&◌, Option, none, some, List, [], ◌∷◌, ◌++◌, map,
  if◌then◌else◌, leb, ◌==◌, Text, codes, is_empty, get_elem?, ◌>>=◌,
}

abbrev pub b64_chars : Text
b64_chars = codes "ABCDEFGHIJKLMNOPQRSTUVWXYZabcdefghijklmnopqrstuvwxyz0123456789+/"

-- B64_CHARS[(val >> …) & 0x3F]
unfoldable pub b64_char : ℕ → ℕ
b64_char v = elim (get_elem? b64_chars (v % 64)) [ none ↦ 0 | some c ↦ c ]

-- The loop over the bytes, three at a time.
unfoldable pub encode_groups : List ℕ → Text
unfolding b64_char
encode_groups [] = []
encode_groups (a ∷ []) =
    let val = a * 2 ^ 16 in b64_char (val / 2 ^ 18) ∷ b64_char (val / 2 ^ 12) ∷ b'=' ∷ b'=' ∷ []
encode_groups (a ∷ b ∷ []) =
    let val = a * 2 ^ 16 + b * 2 ^ 8 in
    b64_char (val / 2 ^ 18) ∷ b64_char (val / 2 ^ 12) ∷ b64_char (val / 2 ^ 6) ∷ b'=' ∷ []
encode_groups (a ∷ b ∷ c ∷ bytes) =
    let val = a * 2 ^ 16 + b * 2 ^ 8 + c in
    b64_char (val / 2 ^ 18)
    ∷ b64_char (val / 2 ^ 12)
    ∷ b64_char (val / 2 ^ 6)
    ∷ b64_char val
    ∷ encode_groups bytes

unfoldable pub to_url : ℕ → ℕ
to_url c = if c == b'+' then b'-' else if c == b'/' then b'_' else c

-- while (!result.empty() && result.back() == '=') result.pop_back();
unfoldable pub strip_padding : Text → Text
unfolding is_empty
strip_padding [] = []
strip_padding (c ∷ s) =
    let rest = strip_padding s in if c == b'=' && is_empty rest then [] else c ∷ rest

unfoldable pub base64_url_encode : List ℕ → Text
unfolding encode_groups to_url strip_padding
base64_url_encode bytes = strip_padding (map to_url (encode_groups bytes))

unfoldable pub from_url : ℕ → ℕ
from_url c = if c == b'-' then b'+' else if c == b'_' then b'/' else c

-- while (s.size() % 4 != 0) s += '=';
unfoldable pub pad : Text → Text
pad [] = []
pad (a ∷ []) = a ∷ b'=' ∷ b'=' ∷ b'=' ∷ []
pad (a ∷ b ∷ []) = a ∷ b ∷ b'=' ∷ b'=' ∷ []
pad (a ∷ b ∷ c ∷ []) = a ∷ b ∷ c ∷ b'=' ∷ []
pad (a ∷ b ∷ c ∷ d ∷ s) = a ∷ b ∷ c ∷ d ∷ pad s

-- The table `decoding`: `none` is -1, and the entries from 128 on, which the initialiser leaves out,
-- are 0.
unfoldable pub decoding : ℕ → Option ℕ
decoding c =
    if leb 128 c
    then some 0
    else if c == b'+'
    then some 62
    else if c == b'/'
    then some 63
    else if leb b'0' c && leb c b'9'
    then some (c - b'0' + 52)
    else if leb b'A' c && leb c b'Z'
    then some (c - b'A')
    else if leb b'a' c && leb c b'z'
    then some (c - b'a' + 26)
    else none

-- The bytes that v2 and v3 add; v2 & 0x3 is 3 where v2 is -1.
unfoldable pub second_byte : ℕ → Option ℕ → List ℕ
second_byte v1 none = []
second_byte v1 (some v2) = (v1 % 16 * 16 + v2 / 4) ∷ []

unfoldable pub third_byte : Option ℕ → Option ℕ → List ℕ
third_byte v2 none = []
third_byte none (some v3) = (3 * 64 + v3) ∷ []
third_byte (some v2) (some v3) = (v2 % 4 * 64 + v3) ∷ []

-- What four characters stand for: `none` is the break out of the loop.
unfoldable pub decode_group : ℕ → ℕ → ℕ → ℕ → Option (List ℕ)
unfolding decoding second_byte third_byte
decode_group a b c d = do
  v0 ← decoding a
  v1 ← decoding b
  some ((v0 * 4 + v1 / 16) ∷ second_byte v1 (decoding c) ++ third_byte (decoding c) (decoding d))

unfoldable pub decode_groups : Text → List ℕ
unfolding decode_group
decode_groups (a ∷ b ∷ c ∷ d ∷ s) = elim (decode_group a b c d) [
  | none ↦ []
  | some bytes ↦ bytes ++ decode_groups s
]
decode_groups s = []

unfoldable pub base64_url_decode : Text → List ℕ
unfolding from_url pad decode_groups
base64_url_decode input = decode_groups (pad (map from_url input))
