-- ===== src/Http/Url.antt =====
-- network/HttpParser.cpp: UrlDecode and ParseQueryString.
pub mod Decode
use distributed_key_value_st.Base.{
  ℕ, ◌+◌, ◌-◌, ◌*◌, ◌&&◌, Option, none, some, List, [], ◌∷◌, if◌then◌else◌, leb, ◌==◌, Text, Assoc,
  assign,
}

-- The text before the first `c` and the text behind it.
unfoldable pub cut_at : ℕ → Text → Option (Text × Text)
cut_at c [] = none
cut_at c (a ∷ s) =
    let rest = cut_at c s in
    if a == c
    then some ([], s)
    else elim rest [ none ↦ none | some (before, after) ↦ some (a ∷ before, after) ]

-- The bits that one character adds to `val`; any other than a digit adds none.
unfoldable pub hex_value : ℕ → ℕ
hex_value c =
    if leb b'0' c && leb c b'9'
    then c - b'0'
    else if leb b'a' c && leb c b'f'
    then c - b'a' + 10
    else if leb b'A' c && leb c b'F'
    then c - b'A' + 10
    else 0

unfoldable pub plus_to_space : ℕ → ℕ
plus_to_space c = if c == b'+' then b' ' else c

-- A `%` with two characters behind it stands for a byte.
unfoldable pub url_decode : Text → Text
unfolding hex_value plus_to_space
url_decode [] = []
url_decode (a ∷ []) = plus_to_space a ∷ []
url_decode (a ∷ b ∷ []) = plus_to_space a ∷ plus_to_space b ∷ []
url_decode (a ∷ b ∷ c ∷ s) =
    let escaped = url_decode s in
    let rest = url_decode (b ∷ c ∷ s) in
    if a == b'%' then (hex_value b * 16 + hex_value c) ∷ escaped else plus_to_space a ∷ rest

abbrev pub prepend : ℕ → List Text → List Text
prepend c [] = (c ∷ []) ∷ []
prepend c (w ∷ ws) = (c ∷ w) ∷ ws

-- The texts that std::getline reads up to each `&`.
unfoldable pub split_pairs : Text → List Text
split_pairs [] = []
split_pairs (c ∷ s) = let rest = split_pairs s in if c == b'&' then [] ∷ rest else prepend c rest

unfoldable pub add_param : Text → Assoc Text → Assoc Text
unfolding cut_at url_decode assign
add_param pair params = elim (cut_at b'=' pair) [
  | none ↦ assign (url_decode pair) [] params
  | some (key, value) ↦ assign (url_decode key) (url_decode value) params
]

unfoldable pub add_params : List Text → Assoc Text → Assoc Text
unfolding add_param
add_params [] params = params
add_params (pair ∷ pairs) params = add_params pairs (add_param pair params)

unfoldable pub parse_query_string : Text → Assoc Text → Assoc Text
unfolding split_pairs add_params
parse_query_string raw params = add_params (split_pairs raw) params
