-- ===== src/Http/Parser/Bytes.antt =====
-- network/HttpParser.cpp: every byte that is fed is counted as consumed or stays in the buffer.
use distributed_key_value_st.Base.{
  ℕ, zero, suc, ◌+◌, ◌<◌, ◌≡◌, refl, ◌⊎◌, inl, inr, ◌++◌, Option, none, some, [], ◌∷◌, arith, ◌&&◌,
  ◌||◌, ◌==◌, min, Text, is_empty, length, length-append, length-drop, Bool-cases, Option-cases,
  u64_mod, add64, sub64,
}
use distributed_key_value_st.Http.Url.{cut_at}
use distributed_key_value_st.Http.Parser.{
  HttpParser, State, Parsed, parsed, thrown, stuck, cut_crlf, next_line, next_word, split_path,
  parse_body, content_length_of, start_body, end_headers, fail, add_header, header_line,
  parse_headers, request_line_of, has_ended, parse_request_line, feed,
}

-- The bytes that a parser has seen.
abbrev pub seen : HttpParser → ℕ
seen p = p.consumed + length p.buffer

-- The call has ended, and unless it threw, the parser has seen so many bytes.
abbrev pub Settled : ℕ → Parsed → Type 0
Settled n (parsed r p) = seen p ≡ n
Settled n thrown = Unit
Settled n stuck = ⊥

cut_crlf-length :
    (s line after : Text)
    → cut_crlf s ≡ some (line, after)
    → length s ≡ length line + 2 + length after
unfolding cut_crlf
cut_crlf-length [] line after h = cc
cut_crlf-length (a ∷ []) line after h = cc
cut_crlf-length (a ∷ b ∷ s) line after h = elim (Bool-cases (a == 13 && b == 10)) [
  | inl found ↦
      let same : ◌≡◌ {A = Option (Text × Text)} (some ([], s)) (some (line, after)) =
        rw (found, cut_crlf) at h in
      let nothing : line ≡ [] = cc (same) in
      let behind : after ≡ s = cc (same) in rw (nothing, behind) (omega arith)
  | inr other ↦ elim (Option-cases (cut_crlf (b ∷ s))) [
    | inl missing ↦
        let same : ◌≡◌ {A = Option (Text × Text)} none (some (line, after)) =
          rw (other, missing, cut_crlf) at h in
        cc
    | inr ((line', after'), cut) ↦
        let same : ◌≡◌ {A = Option (Text × Text)} (some (a ∷ line', after')) (some (line, after)) =
          rw (other, cut, cut_crlf) at h in
        let longer : line ≡ a ∷ line' = cc (same) in
        let behind : after ≡ after' = cc (same) in
        let rest = cut_crlf-length (b ∷ s) line' after' cut in
        rw (longer, behind) (omega (arith, rest))
  ]
]

-- The loop and what it calls, while the bytes are fewer than 2^64.
module _ (n : ℕ) (h : n < u64_mod) where
  parse_body-seen : (p : HttpParser) → seen p ≡ n → seen (parse_body p).1 ≡ n
  unfolding parse_body
  parse_body-seen p e =
      let m = min (length p.buffer) (sub64 p.content_length p.body_bytes_read) in
      let cut = length-drop m p.buffer in ground (arith, cut)

  start_body-Settled : (p : HttpParser) → seen p ≡ n → Settled n (start_body p)
  unfolding start_body
  start_body-Settled p e = parse_body-seen (record p { state = State.body }) e

  end_headers-Settled :
      (stoull : Text → Option ℕ) (p : HttpParser) → seen p ≡ n → Settled n (end_headers stoull p)
  unfolding end_headers
  end_headers-Settled stoull p e = elim (Option-cases (content_length_of p.current.headers)) [
    | inl absent ↦ rw (absent, end_headers) (start_body-Settled p e)
    | inr (v, present) ↦ elim (Option-cases (stoull v)) [
      | inl throws ↦ rw (present, throws, end_headers) tt
      | inr (k, value) ↦
          rw (present, value, end_headers) (start_body-Settled (record p { content_length = k }) e)
    ]
  ]

  -- A line that is taken off leaves a shorter buffer, and the count of the bytes as it was.
  next_line-cases :
      (p : HttpParser)
      → seen p ≡ n
      → (next_line p ≡ none)
        ⊎ ((line : Text) × (q : HttpParser) × (next_line p ≡ some (line, q))
            × (seen q ≡ n)
            × (length q.buffer < length p.buffer))
  unfolding next_line
  next_line-cases p e = elim (Option-cases (cut_crlf p.buffer)) [
    | inl missing ↦ inl (rw (missing, next_line) refl)
    | inr ((line, after), cut) ↦
        let shorter = cut_crlf-length p.buffer line after cut in
        let q : HttpParser = record p {
          buffer = after;
          consumed = add64 p.consumed (length line + 2);
        } in
        inr (line, q, rw (cut, next_line) refl, omega (arith, shorter), omega (arith, shorter))
  ]

  -- With more rounds than bytes, the loop over the headers ends.
  parse_headers-Settled :
      (stoull : Text → Option ℕ) (rounds : ℕ) (p : HttpParser)
      → seen p ≡ n
      → length p.buffer < rounds
      → Settled n (parse_headers stoull rounds p)
  unfolding parse_headers header_line fail add_header
  parse_headers-Settled stoull zero p e f = absurd (omega arith)
  parse_headers-Settled stoull (suc rounds) p e f = elim (next_line-cases p e) [
    | inl missing ↦ rw (missing, parse_headers) e
    | inr (line, q, taken, e', shorter) ↦ elim (Bool-cases (is_empty line)) [
      | inl last ↦ rw (taken, last, parse_headers) (end_headers-Settled stoull q e')
      | inr more ↦ elim (Option-cases (cut_at b':' line)) [
        | inl bad ↦ rw (taken, more, bad, parse_headers) e'
        | inr ((key, value), good) ↦
            rw (taken, more, good, parse_headers)
              (parse_headers-Settled stoull rounds (add_header key value q) e' (omega arith))
      ]
    ]
  ]

  request_line_of-Settled :
      (stoull : Text → Option ℕ) (line : Text) (p : HttpParser)
      → seen p ≡ n
      → Settled n (request_line_of stoull line p)
  unfolding request_line_of fail
  request_line_of-Settled stoull line p e =
      let (method, rest) = next_word line in
      let (full_path, rest') = next_word rest in
      let q : HttpParser = record p {
        current =
            split_path full_path
              (record p.current { method = method; version = (next_word rest').0 });
        state = State.headers;
      } in
      elim (Bool-cases (is_empty method || is_empty full_path)) [
        | inl bad ↦ rw (bad, request_line_of) e
        | inr good ↦
            rw (good, request_line_of)
              (parse_headers-Settled stoull (suc (length p.buffer)) q e (omega arith))
      ]

-- Feed ends in an answer or in the exception of std::stoull: the rounds that the loop over the headers
-- is given are enough. With an answer, each byte that the parser has seen or is fed is either counted
-- as consumed or in the buffer. The hypothesis is that these bytes are fewer than 2^64.
pub feed-Settled :
    (stoull : Text → Option ℕ) (bytes : Text) (p : HttpParser)
    → seen p + length bytes < u64_mod
    → Settled (seen p + length bytes) (feed stoull bytes p)
unfolding feed parse_request_line
feed-Settled stoull bytes p h =
    let q : HttpParser = record p { buffer = p.buffer ++ bytes } in
    let e : seen q ≡ seen p + length bytes = omega (arith, length-append p.buffer bytes) in
    elim (Bool-cases (has_ended p.state)) [
      | inl ended ↦ rw (ended, feed) e
      | inr open_state ↦ elim (next_line-cases (seen p + length bytes) h q e) [
        | inl missing ↦ rw (open_state, missing, feed) e
        | inr (line, q', taken, e', _) ↦
            rw (open_state, taken, feed)
              (request_line_of-Settled (seen p + length bytes) h stoull line q' e')
      ]
    ]
