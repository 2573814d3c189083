-- ===== src/Http/Parser/Lines.antt =====
-- network/HttpParser.cpp: what the parser cuts off a text, where the text is known.
use distributed_key_value_st.Base.{
  ℕ, ◌≡◌, ◌≢◌, refl, ap, ◌∙◌, ◌++◌, true, false, none, some, [], ◌∷◌, arith, Text, All,
}
use distributed_key_value_st.Http.Url.{cut_at}
use distributed_key_value_st.Http.Parser.{cut_crlf, is_space, skip_space, take_word, next_word}

-- A text without blanks, and one without a character.
abbrev pub IsWord : Text → Type 0
IsWord s = All (λ c. is_space c ≡ false) s

abbrev pub Avoids : ℕ → Text → Type 0
Avoids a s = All (λ c. c ≢ a) s

pub Avoids-append : (a : ℕ) (s t : Text) → Avoids a s → Avoids a t → Avoids a (s ++ t)
Avoids-append a [] t h k = k
Avoids-append a (c ∷ s) t h k = (h.0, Avoids-append a s t h.1 k)

pub IsWord-Avoids : (a : ℕ) → is_space a ≡ true → (s : Text) → IsWord s → Avoids a s
IsWord-Avoids a h [] k = tt
IsWord-Avoids a h (c ∷ s) k =
    ((λ e. let bad : is_space a ≡ false = rw e at k.0 in cc), IsWord-Avoids a h s k.1)

pub cut_crlf-line :
    (line rest : Text) → Avoids 13 line → cut_crlf (line ++ 13 ∷ 10 ∷ rest) ≡ some (line, rest)
unfolding cut_crlf
cut_crlf-line [] rest h = refl
cut_crlf-line (a ∷ []) rest h = ground (arith, h)
cut_crlf-line (a ∷ b ∷ line) rest h = rw (cut_crlf-line (b ∷ line) rest h.1) (ground (arith, h))

pub cut_crlf-none : (s : Text) → Avoids 13 s → cut_crlf s ≡ none
unfolding cut_crlf
cut_crlf-none [] h = refl
cut_crlf-none (a ∷ []) h = refl
cut_crlf-none (a ∷ b ∷ s) h = rw (cut_crlf-none (b ∷ s) h.1) (ground (arith, h))

pub cut_at-first : (c : ℕ) (s rest : Text) → Avoids c s → cut_at c (s ++ c ∷ rest) ≡ some (s, rest)
unfolding cut_at
cut_at-first c [] rest h = ground arith
cut_at-first c (a ∷ s) rest h = rw (cut_at-first c s rest h.1) (ground (arith, h))

pub take_word-blank : (w rest : Text) → IsWord w → take_word (w ++ b' ' ∷ rest) ≡ (w, b' ' ∷ rest)
unfolding take_word
take_word-blank [] rest h = refl
take_word-blank (c ∷ w) rest h = rw (take_word-blank w rest h.1, h.0) refl

pub take_word-all : (w : Text) → IsWord w → take_word w ≡ (w, [])
unfolding take_word
take_word-all [] h = refl
take_word-all (c ∷ w) h = rw (take_word-all w h.1, h.0) refl

pub skip_space-word :
    (c : ℕ) (w rest : Text) → IsWord (c ∷ w) → skip_space (c ∷ w ++ rest) ≡ c ∷ w ++ rest
unfolding skip_space
skip_space-word c w rest h = rw h.0 refl

-- ss >> word, where a word stands in front, alone or with a blank behind it, or behind a blank.
pub next_word-first :
    (w rest : Text) → IsWord w → w ≢ [] → next_word (w ++ b' ' ∷ rest) ≡ (w, b' ' ∷ rest)
unfolding next_word
next_word-first [] rest h k = absurd (k refl)
next_word-first (c ∷ w) rest h k =
    ap take_word (skip_space-word c w (b' ' ∷ rest) h) ∙ take_word-blank (c ∷ w) rest h

pub next_word-blank : (s : Text) → next_word (b' ' ∷ s) ≡ next_word s
unfolding next_word skip_space is_space
next_word-blank s = refl

pub next_word-last : (w : Text) → IsWord w → next_word w ≡ (w, [])
unfolding next_word skip_space take_word
next_word-last [] h = refl
next_word-last (c ∷ w) h = rw h.0 (take_word-all (c ∷ w) h)
