-- ===== src/Http/Parser/RoundTrip.antt =====
-- network/HttpParser.cpp: the parser on the text of a request.
use distributed_key_value_st.Base.{
  ℕ, zero, suc, ◌<◌, ◌≡◌, refl, ap, ◌∙◌, ◌++◌, true, false, Option, none, some, [], ◌∷◌, arith,
  ◌==◌, min, Text, length, length-append, leb, inl, inr, Option-cases, u64_mod, add64, Assoc, sub64,
  take-length, drop-length, le→leb,
}
use distributed_key_value_st.Http.Request.{HttpRequest}
use distributed_key_value_st.Http.Parser.{
  HttpParser, State, ParseResult, Parsed, parsed, thrown, stuck, new, cut_crlf, next_line,
  parse_body, content_length_of, start_body, end_headers, has_ended, parse_request_line, feed,
}
use distributed_key_value_st.Http.Parser.Printed.{
  print_request, table_of, IsRequest, request_of, feed-print_request,
}
use distributed_key_value_st.Http.Parser.Lines.{Avoids, cut_crlf-none}

-- The length that the headers announce.
abbrev pub announced : (Text → Option ℕ) → Assoc Text → Option ℕ
announced stoull hs = elim (content_length_of (table_of hs [])) [
  | none ↦ some 0
  | some v ↦ stoull v
]

-- The parser at the end of the headers of `req`.
abbrev pub at_end : HttpRequest → Text → ℕ → HttpParser
at_end req rest n = record new { state = State.headers; current = req; buffer = rest; consumed = n }

end_headers-announced :
    (stoull : Text → Option ℕ) (hs : Assoc Text) (req : HttpRequest) (rest : Text) (n k : ℕ)
    → announced stoull hs ≡ some k
    → let p = at_end (record req { headers = table_of hs [] }) rest n in
      end_headers stoull p ≡ start_body (record p { content_length = k })
unfolding end_headers
end_headers-announced stoull hs req rest n k h =
    elim (Option-cases (content_length_of (table_of hs []))) [
      | inl absent ↦
          let same : ◌≡◌ {A = Option ℕ} (some 0) (some k) = rw (absent, announced) at h in
          let none_long : k ≡ 0 = cc (same) in rw (absent, none_long, end_headers) refl
      | inr (v, present) ↦
          let value : stoull v ≡ some k = rw (present, announced) at h in
          rw (present, value, end_headers) refl
    ]

-- The parser has a whole request, and these bytes are left over.
abbrev pub Delivers : HttpRequest → Text → Parsed → Type 0
Delivers req rest (parsed ParseResult.complete p) = (p.current ≡ req) × (p.buffer ≡ rest)
Delivers req rest (parsed ParseResult.incomplete p) = ⊥
Delivers req rest (parsed ParseResult.error p) = ⊥
Delivers req rest thrown = ⊥
Delivers req rest stuck = ⊥

-- The parser waits, with this much of the request and these bytes in its buffer.
abbrev pub Waits : HttpRequest → Text → Parsed → Type 0
Waits req rest (parsed ParseResult.complete p) = ⊥
Waits req rest (parsed ParseResult.incomplete p) = (p.current ≡ req) × (p.buffer ≡ rest)
Waits req rest (parsed ParseResult.error p) = ⊥
Waits req rest thrown = ⊥
Waits req rest stuck = ⊥

start_body-whole :
    (req : HttpRequest) (body rest : Text) (n : ℕ)
    → length body < u64_mod
    → let p = at_end (record req { body = [] }) (body ++ rest) n in
      Delivers
        (record req { body = body })
        rest
        (start_body (record p { content_length = length body }))
unfolding start_body parse_body
start_body-whole req [] rest n h = (refl, refl)
start_body-whole req (c ∷ body) rest n h =
    let all_there : min (suc (length (body ++ rest))) (sub64 (suc (length body)) 0)
        ≡ suc (length body) =
      omega (arith, length-append body rest) in
    let some_wanted : (suc (length body) == 0) ≡ false = ground arith in
    let reached : leb (suc (length body)) (add64 0 (suc (length body))) ≡ true =
      le→leb (suc (length body)) (add64 0 (suc (length body))) (omega arith) in
    rw (some_wanted, all_there, reached, parse_body)
      (ap (λ b. record req { body = b }) (take-length (c ∷ body) rest), drop-length (c ∷ body) rest)

-- The parser that waits for `k` bytes of a body and has none of them.
abbrev pub awaiting : HttpRequest → ℕ → ℕ → HttpParser
awaiting req n k = record new {
  state = State.body;
  current = req;
  content_length = k;
  consumed = n;
}

start_body-waits :
    (req : HttpRequest) (n k : ℕ)
    → 0 < k
    → k < u64_mod
    → let p = at_end (record req { body = [] }) [] n in
      start_body (record p { content_length = k })
      ≡ parsed ParseResult.incomplete (awaiting (record req { body = [] }) (add64 n 0) k)
unfolding start_body parse_body
start_body-waits req n zero h h' = absurd (omega arith)
start_body-waits req n (suc k) h h' =
    let none_there : min 0 (sub64 (suc k) 0) ≡ 0 = omega arith in
    let some_wanted : (suc k == 0) ≡ false = ground arith in
    let short : leb (suc k) 0 ≡ false = ground arith in
    rw (some_wanted, none_there, short, parse_body) refl

-- A request that Feed gets in one piece: the method, the target and the version are words, no header
-- has CR in it or a colon in its name or blanks in front of its value, and the headers announce the
-- length of the body, which is below 2^64. Then Feed completes it, with these values, and the bytes
-- behind it stay in the buffer. The target and the length are as the parser reads them.
pub feed-printed :
    (stoull : Text → Option ℕ) (method target version : Text) (hs : Assoc Text) (body rest : Text)
    → IsRequest method target version hs
    → announced stoull hs ≡ some (length body)
    → length body < u64_mod
    → Delivers
        (request_of method target version hs body)
        rest
        (feed stoull (print_request method target version hs (body ++ rest)) new)
feed-printed stoull method target version hs body rest h a b =
    let req = request_of method target version hs [] in
    let (n, read) = feed-print_request stoull method target version hs (body ++ rest) h in
    let ended = end_headers-announced stoull hs req (body ++ rest) n (length body) a in
    rw (read, ended) (start_body-whole req body rest n b)

has_ended-body : has_ended State.body ≡ false
unfolding has_ended
has_ended-body = refl

feed-no_line :
    (stoull : Text → Option ℕ) (bytes : Text) (p : HttpParser)
    → has_ended p.state ≡ false
    → cut_crlf (p.buffer ++ bytes) ≡ none
    → Waits p.current (p.buffer ++ bytes) (feed stoull bytes p)
unfolding feed parse_request_line next_line
feed-no_line stoull bytes p h k = rw (h, k, parse_request_line) (refl, refl)

-- The same request in two pieces, cut behind its headers, where the body is not empty and has no CR:
-- the first call waits, and so does the second, with all of the body in the buffer and none of it in
-- the request.
pub feed_in_two :
    (stoull : Text → Option ℕ) (method target version : Text) (hs : Assoc Text) (body : Text)
    → IsRequest method target version hs
    → announced stoull hs ≡ some (length body)
    → 0 < length body
    → length body < u64_mod
    → Avoids 13 body
    → (p : HttpParser) × (feed stoull (print_request method target version hs []) new
        ≡ parsed ParseResult.incomplete p)
      × Waits (request_of method target version hs []) body (feed stoull body p)
feed_in_two stoull method target version hs body h a b b' c =
    let req = request_of method target version hs [] in
    let (n, read) = feed-print_request stoull method target version hs [] h in
    let ended = end_headers-announced stoull hs req [] n (length body) a in
    let waits = start_body-waits req n (length body) b b' in
    (
      awaiting req (add64 n 0) (length body),
      read ∙ ended ∙ waits,
      feed-no_line stoull body (awaiting req (add64 n 0) (length body)) has_ended-body
          (cut_crlf-none body c),
    )
