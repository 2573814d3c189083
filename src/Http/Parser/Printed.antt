-- ===== src/Http/Parser/Printed.antt =====
-- network/HttpParser.cpp: the request line and the headers of a printed request.
use distributed_key_value_st.Base.{
  ℕ, zero, suc, ◌+◌, ◌<◌, ◌≡◌, ◌≢◌, refl, ◌∙◌, ◌++◌, false, Option, some, [], ◌∷◌, arith, Text,
  is_empty, length, length-append, inl, inr, Option-cases, add64, All, Assoc, assign,
}
use distributed_key_value_st.Http.Request.{HttpRequest, no_request}
use distributed_key_value_st.Http.Url.{cut_at}
use distributed_key_value_st.Http.Parser.{
  HttpParser, State, new, cut_crlf, next_line, next_word, trim_left, split_path, end_headers,
  add_header, header_line, parse_headers, request_line_of, has_ended, parse_request_line, feed,
}
use distributed_key_value_st.Http.Parser.Lines.{
  IsWord, Avoids, Avoids-append, IsWord-Avoids, cut_crlf-line, cut_at-first, next_word-first,
  next_word-blank, next_word-last,
}

-- The text of the header lines and the empty line, with what follows.
abbrev pub print_headers : Assoc Text → Text → Text
print_headers [] rest = 13 ∷ 10 ∷ rest
print_headers ((key, value) ∷ hs) rest =
    (key ++ b':' ∷ b' ' ∷ value) ++ 13 ∷ 10 ∷ print_headers hs rest

abbrev pub print_request : Text → Text → Text → Assoc Text → Text → Text
print_request method target version hs rest =
    (method ++ (b' ' ∷ (target ++ b' ' ∷ version))) ++ 13 ∷ 10 ∷ print_headers hs rest

-- The table of the headers; the later of two values under a name counts.
abbrev pub table_of : Assoc Text → Assoc Text → Assoc Text
table_of [] table = table
table_of ((key, value) ∷ hs) table = table_of hs (assign key value table)

abbrev pub IsHeader : Text × Text → Type 0
IsHeader h = Avoids 13 h.0 × Avoids b':' h.0 × Avoids 13 h.1 × (trim_left h.1 ≡ h.1)

length-print_headers : (hs : Assoc Text) (rest : Text) → length hs < length (print_headers hs rest)
length-print_headers [] rest = omega arith
length-print_headers ((key, value) ∷ hs) rest = omega (
  arith,
  length-print_headers hs rest,
  length-append (key ++ b':' ∷ b' ' ∷ value) (13 ∷ 10 ∷ print_headers hs rest),
)

is_empty-middle : (s t : Text) (c : ℕ) → is_empty (s ++ c ∷ t) ≡ false
unfolding is_empty
is_empty-middle [] t c = refl
is_empty-middle (a ∷ s) t c = refl

parse_headers-print :
    (stoull : Text → Option ℕ) (hs : Assoc Text) (rest : Text) (rounds : ℕ) (p : HttpParser)
    → All IsHeader hs
    → length hs < rounds
    → (n : ℕ) × (parse_headers stoull rounds (record p { buffer = print_headers hs rest })
        ≡ end_headers stoull (record p {
          current = record p.current { headers = table_of hs p.current.headers };
          buffer = rest;
          consumed = n;
        }))
unfolding parse_headers next_line cut_crlf header_line add_header is_empty
parse_headers-print stoull hs rest zero p h k = absurd (omega arith)
parse_headers-print stoull [] rest (suc rounds) p h k = (add64 p.consumed 2, refl)
parse_headers-print stoull ((key, value) ∷ hs) rest (suc rounds) p h k =
    let line = key ++ b':' ∷ b' ' ∷ value in
    let tail = print_headers hs rest in
    let (before, colon_free, behind, trimmed) = h.0 in
    let in_line =
      Avoids-append 13 key (b':' ∷ b' ' ∷ value) before
        ((λ e. absurd (omega arith)), ((λ e. absurd (omega arith)), behind)) in
    let cut : cut_crlf (line ++ 13 ∷ 10 ∷ tail) ≡ some (line, tail) =
      cut_crlf-line line tail in_line in
    let more : is_empty line ≡ false = is_empty-middle key (b' ' ∷ value) b':' in
    let colon : cut_at b':' line ≡ some (key, b' ' ∷ value) =
      cut_at-first b':' key (b' ' ∷ value) colon_free in
    let q : HttpParser = record p { consumed = add64 p.consumed (length line + 2) } in
    let q' : HttpParser = record q {
      current = record p.current { headers = assign key value p.current.headers };
    } in
    let (n, rest_read) = parse_headers-print stoull hs rest rounds q' h.1 (omega arith) in
    (n, rw (cut, more, colon, trimmed, parse_headers) rest_read)

split_path-fields :
    (target : Text) (r : HttpRequest)
    → ((split_path target r).headers ≡ r.headers) × ((split_path target r).body ≡ r.body)
unfolding split_path
split_path-fields target r = elim (Option-cases (cut_at b'?' target)) [
  | inl none_there ↦ rw (none_there, split_path) (refl, refl)
  | inr ((path, query), there) ↦ rw (there, split_path) (refl, refl)
]

is_empty-word : (w : Text) → w ≢ [] → is_empty w ≡ false
unfolding is_empty
is_empty-word [] h = absurd (h refl)
is_empty-word (c ∷ w) h = refl

-- What makes up the text of a request: words for the line, and headers.
abbrev pub IsRequest : Text → Text → Text → Assoc Text → Type 0
IsRequest method target version hs =
    (IsWord method × (method ≢ []))
    × (IsWord target × (target ≢ []))
    × IsWord version
    × All IsHeader hs

-- The request that the text stands for.
abbrev pub request_of : Text → Text → Text → Assoc Text → Text → HttpRequest
request_of method target version hs body =
    let req = split_path target (record no_request { method = method; version = version }) in
    record req { headers = table_of hs []; body = body }

-- Feed reads the request line and the headers of such a text.
pub feed-print_request :
    (stoull : Text → Option ℕ) (method target version : Text) (hs : Assoc Text) (rest : Text)
    → IsRequest method target version hs
    → (n : ℕ) × (feed stoull (print_request method target version hs rest) new
        ≡ end_headers stoull (record new {
          state = State.headers;
          current = request_of method target version hs [];
          buffer = rest;
          consumed = n;
        }))
unfolding feed parse_request_line has_ended next_line request_line_of
feed-print_request stoull method target version hs rest ((m, m'), (t, t'), v, h) =
    let line = method ++ (b' ' ∷ (target ++ b' ' ∷ version)) in
    let tail = print_headers hs rest in
    let no_cr : (w : Text) → IsWord w → Avoids 13 w = IsWord-Avoids 13 refl in
    let blank : b' ' ≢ 13 = omega arith in
    let in_line =
      Avoids-append 13 method (b' ' ∷ (target ++ b' ' ∷ version)) (no_cr method m) (
        blank,
        Avoids-append 13 target (b' ' ∷ version) (no_cr target t) (blank, no_cr version v),
      ) in
    let cut : cut_crlf (line ++ 13 ∷ 10 ∷ tail) ≡ some (line, tail) =
      cut_crlf-line line tail in_line in
    let first : next_word line ≡ (method, b' ' ∷ (target ++ b' ' ∷ version)) =
      next_word-first method (target ++ b' ' ∷ version) m m' in
    let second : next_word (b' ' ∷ (target ++ b' ' ∷ version)) ≡ (target, b' ' ∷ version) =
      next_word-blank (target ++ b' ' ∷ version) ∙ next_word-first target version t t' in
    let third : next_word (b' ' ∷ version) ≡ (version, []) =
      next_word-blank version ∙ next_word-last version v in
    let q : HttpParser = record new {
      state = State.headers;
      current = split_path target (record no_request { method = method; version = version });
      consumed = add64 0 (length line + 2);
    } in
    let (n, rest_read) =
      parse_headers-print stoull hs rest (suc (length tail)) q h
        (omega (arith, length-print_headers hs rest)) in
    let (h', b') =
      split_path-fields target (record no_request { method = method; version = version }) in
    (
      n,
      rw
          (
            cut,
            first,
            second,
            third,
            is_empty-word method m',
            is_empty-word target t',
            parse_request_line,
          )
          (rw (h', b') at rest_read),
    )
