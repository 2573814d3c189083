-- ===== src/Http/Parser/Announced.antt =====
-- network/HttpParser.cpp: the length of the body that the headers give.
use distributed_key_value_st.Base.{
  ◌≡◌, refl, sym, subst, ap, ◌∙◌, inl, inr, Bool, true, false, ◌||◌, Option, none, some, [], ◌∷◌,
  ◌++◌, ℕ, map, arith, Text, codes, text_eq, text_eq_iff, All, Assoc, assign, lookup, Bool-cases,
  Option-cases,
}
use distributed_key_value_st.Http.Request.{to_lower, find_lower}
use distributed_key_value_st.Http.Parser.{content_length_of}
use distributed_key_value_st.Http.Parser.Printed.{table_of}
use distributed_key_value_st.Http.Parser.RoundTrip.{announced}

-- The name of the header in lower case.
abbrev pub is_length_header : Text → Bool
is_length_header name = text_eq (map to_lower name) (codes "content-length")

All-assign :
    (R : Text → Text → Type 0) (key value : Text) (table : Assoc Text)
    → R key value
    → All (λ h. R h.0 h.1) table
    → All (λ h. R h.0 h.1) (assign key value table)
unfolding assign
All-assign R key value [] r h = (r, tt)
All-assign R key value ((j, w) ∷ table) r h = elim (Bool-cases (text_eq j key)) [
  | inl same ↦
      let e : key ≡ j = sym ((text_eq_iff j key).0 same) in
      rw (same, assign) (subst (λ k. R k value) e r, h.1)
  | inr other ↦ rw (other, assign) (h.0, All-assign R key value table r h.1)
]

All-table_of :
    (R : Text → Text → Type 0) (hs table : Assoc Text)
    → All (λ h. R h.0 h.1) hs
    → All (λ h. R h.0 h.1) table
    → All (λ h. R h.0 h.1) (table_of hs table)
All-table_of R [] table h k = k
All-table_of R ((key, value) ∷ hs) table h k =
    All-table_of R hs (assign key value table) h.1 (All-assign R key value table h.0 k)

-- A table has the header.
abbrev has_length : Assoc Text → Bool
has_length [] = false
has_length ((key, value) ∷ table) = is_length_header key || has_length table

has_length-assign :
    (key value : Text) (table : Assoc Text)
    → has_length (assign key value table) ≡ (is_length_header key || has_length table)
unfolding assign
has_length-assign key value [] = refl
has_length-assign key value ((j, w) ∷ table) = elim (Bool-cases (text_eq j key)) [
  | inl same ↦
      let e : j ≡ key = (text_eq_iff j key).0 same in rw (same, assign) (rw e (ground arith))
  | inr other ↦
      let rest = has_length-assign key value table in rw (other, assign) (rw rest (ground arith))
]

has_length-table_of :
    (hs table : Assoc Text) → has_length (table_of hs table) ≡ (has_length hs || has_length table)
has_length-table_of [] table = refl
has_length-table_of ((key, value) ∷ hs) table =
    let rest = has_length-table_of hs (assign key value table) in
    let first = has_length-assign key value table in rest ∙ rw first (ground arith)

has_length-append : (xs ys : Assoc Text) → has_length (xs ++ ys) ≡ (has_length xs || has_length ys)
has_length-append [] ys = refl
has_length-append ((key, value) ∷ xs) ys = rw (has_length-append xs ys) (ground arith)

find_lower-has_length :
    (table : Assoc Text)
    → has_length table ≡ true
    → (x : Text) × (find_lower (codes "content-length") table ≡ some x)
unfolding find_lower
find_lower-has_length [] h = absurd (ground arith)
find_lower-has_length ((key, value) ∷ table) h = elim (Bool-cases (is_length_header key)) [
  | inl named ↦ (value, rw (named, find_lower) refl)
  | inr other ↦
      let rest = find_lower-has_length table (rw other at h) in
      (rest.0, rw (other, find_lower) rest.1)
]

module _ (v : Text) where
  -- Each such header has this value.
  abbrev HasValue : Assoc Text → Type 0
  HasValue table = All (λ h. is_length_header h.0 ≡ true → h.1 ≡ v) table

  find_lower-value :
      (table : Assoc Text) (x : Text)
      → HasValue table
      → find_lower (codes "content-length") table ≡ some x
      → x ≡ v
  unfolding find_lower
  find_lower-value [] x h found = absurd (cc (found))
  find_lower-value ((key, value) ∷ table) x h found = elim (Bool-cases (is_length_header key)) [
    | inl named ↦
        let here : ◌≡◌ {A = Option Text} (some value) (some x) = rw (named, find_lower) at found in
        let same : value ≡ x = cc (here) in sym same ∙ h.0 named
    | inr other ↦ find_lower-value table x h.1 (rw (other, find_lower) at found)
  ]

  lookup-value :
      (table : Assoc Text) (x : Text)
      → HasValue table
      → lookup (codes "content-length") table ≡ some x
      → x ≡ v
  unfolding lookup text_eq to_lower
  lookup-value [] x h found = absurd (cc (found))
  lookup-value ((key, value) ∷ table) x h found =
      elim (Bool-cases (text_eq key (codes "content-length"))) [
        | inl same ↦
            let e : codes "content-length" ≡ key = sym ((text_eq_iff key _).0 same) in
            let here : ◌≡◌ {A = Option Text} (some value) (some x) = rw (same, lookup) at found in
            let same_value : value ≡ x = cc (here) in
            sym same_value ∙ h.0 (subst (λ k. is_length_header k ≡ true) e refl)
        | inr other ↦ lookup-value table x h.1 (rw (other, lookup) at found)
      ]

  content_length_of-value :
      (table : Assoc Text)
      → HasValue table
      → has_length table ≡ true
      → content_length_of table ≡ some v
  unfolding content_length_of
  content_length_of-value table h has =
      elim (Option-cases (lookup (codes "content-length") table)) [
        | inr (x, found) ↦ rw (found, content_length_of) (ap some (lookup-value table x h found))
        | inl absent ↦
            let (x, found) = find_lower-has_length table has in
            rw (absent, found, content_length_of) (ap some (find_lower-value table x h found))
      ]

find_lower-none :
    (table : Assoc Text)
    → has_length table ≡ false
    → find_lower (codes "content-length") table ≡ none
unfolding find_lower
find_lower-none [] h = refl
find_lower-none ((key, value) ∷ table) h = ground (arith, find_lower-none table)

lookup-none :
    (table : Assoc Text) → has_length table ≡ false → lookup (codes "content-length") table ≡ none
unfolding lookup text_eq to_lower
lookup-none [] h = refl
lookup-none ((key, value) ∷ table) h = elim (Bool-cases (text_eq key (codes "content-length"))) [
  | inl same ↦
      let e : codes "content-length" ≡ key = sym ((text_eq_iff key _).0 same) in
      let named : is_length_header key ≡ true = subst (λ k. is_length_header k ≡ true) e refl in
      absurd (ground (arith, named))
  | inr other ↦ rw (other, lookup) (lookup-none table (ground arith))
]

content_length_of-none :
    (table : Assoc Text) → has_length table ≡ false → content_length_of table ≡ none
unfolding content_length_of
content_length_of-none table h =
    rw (lookup-none table h, content_length_of) (find_lower-none table h)

-- What the headers say of the length of the body: there is no Content-Length, and the body is empty; or
-- there is one, each has the same value, whatever the case of its name, and the value stands for the
-- length.
pub data Announces (stoull : Text → Option ℕ) (hs : Assoc Text) : ℕ → Type 0 where
  no_length : has_length hs ≡ false → Announces stoull hs 0
  has_value :
      (before after : Assoc Text) (v : Text) (n : ℕ)
      → hs ≡ before ++ (codes "Content-Length", v) ∷ after
      → All (λ h. is_length_header h.0 ≡ true → h.1 ≡ v) hs
      → stoull v ≡ some n
      → Announces stoull hs n

pub announced-Announces :
    (stoull : Text → Option ℕ) (hs : Assoc Text) (n : ℕ)
    → Announces stoull hs n
    → announced stoull hs ≡ some n
unfolding text_eq to_lower
announced-Announces stoull hs n (no_length absent) =
    let none_there : has_length (table_of hs []) ≡ false =
      rw (has_length-table_of hs [], absent) refl in
    rw (content_length_of-none (table_of hs []) none_there, announced) refl
announced-Announces stoull hs n (has_value before after v k there same length_is) =
    let has : has_length (table_of hs []) ≡ true =
      has_length-table_of hs []
      ∙ rw (there, has_length-append before ((codes "Content-Length", v) ∷ after)) (ground arith) in
    let values =
      All-table_of (λ name value. is_length_header name ≡ true → value ≡ v) hs [] same tt in
    rw (content_length_of-value v (table_of hs []) values has, announced) length_is
