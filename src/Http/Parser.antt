-- ===== src/Http/Parser.antt =====
-- network/HttpParser.hpp and HttpParser.cpp: the parser. `stoull` stands for std::stoull, and is `none`
-- where that throws. size_t is taken for 64 bits.
pub mod Announced
pub mod Bytes
pub mod Lines
pub mod Printed
pub mod RoundTrip
pub mod Whole
mod Tests
use distributed_key_value_st.Base.{
  ℕ, zero, suc, ◌+◌, ◌++◌, Bool, true, false, ◌&&◌, ◌||◌, Option, none, some, [], ◌∷◌,
  if◌then◌else◌, leb, ◌==◌, min, Text, codes, is_empty, Assoc, assign, lookup, add64, sub64, length,
  take, drop,
}
use distributed_key_value_st.Http.Request.{HttpRequest, no_request, find_lower}
use distributed_key_value_st.Http.Url.{cut_at, parse_query_string}

pub data State : Type 0 where
  request_line headers body complete error : State

pub data ParseResult : Type 0 where
  complete incomplete error : ParseResult

pub record HttpParser : Type 0 where
  pub state : State
  pub buffer : Text
  pub current : HttpRequest
  pub content_length : ℕ
  pub body_bytes_read : ℕ
  pub consumed : ℕ

-- `HttpParser parser;`
abbrev pub new : HttpParser
new = record {
  state = State.request_line;
  buffer = [];
  current = no_request;
  content_length = 0;
  body_bytes_read = 0;
  consumed = 0;
}

-- What a call ends with: the answer and the parser, or an exception of std::stoull. `stuck` is no end
-- of the program's: the loop over the headers was given too few rounds.
pub data Parsed : Type 0 where
  parsed : ParseResult → HttpParser → Parsed
  thrown : Parsed
  stuck : Parsed

-- The text before the first CR LF and the text behind it.
unfoldable pub cut_crlf : Text → Option (Text × Text)
cut_crlf [] = none
cut_crlf (a ∷ []) = none
cut_crlf (a ∷ b ∷ s) =
    let rest = cut_crlf (b ∷ s) in
    if a == 13 && b == 10
    then some ([], s)
    else elim rest [ none ↦ none | some (line, after) ↦ some (a ∷ line, after) ]

-- A line, taken off the buffer with its CR LF.
unfoldable pub next_line : HttpParser → Option (Text × HttpParser)
unfolding cut_crlf
next_line p = elim (cut_crlf p.buffer) [
  | none ↦ none
  | some (line, after) ↦
      some (line, record p { buffer = after; consumed = add64 p.consumed (length line + 2) })
]

-- isspace in the C locale.
unfoldable pub is_space : ℕ → Bool
is_space c = c == 32 || (leb 9 c && leb c 13)

unfoldable pub skip_space : Text → Text
unfolding is_space
skip_space [] = []
skip_space (c ∷ s) = if is_space c then skip_space s else c ∷ s

-- The word that a text begins with, and what is behind it.
unfoldable pub take_word : Text → Text × Text
unfolding is_space
take_word [] = ([], [])
take_word (c ∷ s) =
    let (word, rest) = take_word s in if is_space c then ([], c ∷ s) else (c ∷ word, rest)

-- ss >> word
unfoldable pub next_word : Text → Text × Text
unfolding skip_space take_word
next_word s = take_word (skip_space s)

unfoldable pub trim_left : Text → Text
trim_left [] = []
trim_left (c ∷ s) = if c == b' ' || c == b'\t' then trim_left s else c ∷ s

unfoldable pub parse_body : HttpParser → ParseResult × HttpParser
parse_body p =
    let n = min (length p.buffer) (sub64 p.content_length p.body_bytes_read) in
    let read = add64 p.body_bytes_read n in
    let q : HttpParser = record p {
      current = record p.current { body = p.current.body ++ take n p.buffer };
      buffer = drop n p.buffer;
      consumed = add64 p.consumed n;
      body_bytes_read = read;
    } in
    if p.content_length == 0
    then (ParseResult.complete, record p { state = State.complete })
    else if leb p.content_length read
    then (ParseResult.complete, record q { state = State.complete })
    else (ParseResult.incomplete, q)

-- The value of the header content-length, under that name or else in any case.
unfoldable pub content_length_of : Assoc Text → Option Text
unfolding lookup find_lower
content_length_of table = elim (lookup (codes "content-length") table) [
  | some v ↦ some v
  | none ↦ find_lower (codes "content-length") table
]

unfoldable pub start_body : HttpParser → Parsed
unfolding parse_body
start_body p = let (r, q) = parse_body (record p { state = State.body }) in parsed r q

-- What an empty line does.
unfoldable pub end_headers : (Text → Option ℕ) → HttpParser → Parsed
unfolding content_length_of start_body
end_headers stoull p = elim (content_length_of p.current.headers) [
  | none ↦ start_body p
  | some v ↦ elim (stoull v) [
    | none ↦ thrown
    | some n ↦ start_body (record p { content_length = n })
  ]
]

unfoldable pub fail : HttpParser → Parsed
fail p = parsed ParseResult.error (record p { state = State.error })

unfoldable pub add_header : Text → Text → HttpParser → HttpParser
unfolding assign trim_left
add_header key value p = record p {
  current = record p.current { headers = assign key (trim_left value) p.current.headers };
}

-- One round of the loop of ParseHeaders; `next` is the rounds behind it.
unfoldable pub header_line : (Text → Option ℕ) → (HttpParser → Parsed) → Text → HttpParser → Parsed
unfolding is_empty end_headers cut_at fail add_header
header_line stoull next line p =
    if is_empty line then end_headers stoull p else elim (cut_at b':' line) [
      | none ↦ fail p
      | some (key, value) ↦ next (add_header key value p)
    ]

-- while (true), for so many rounds.
unfoldable pub parse_headers : (Text → Option ℕ) → ℕ → HttpParser → Parsed
unfolding next_line header_line
parse_headers stoull zero p = stuck
parse_headers stoull (suc rounds) p = elim (next_line p) [
  | none ↦ parsed ParseResult.incomplete p
  | some (line, q) ↦ header_line stoull (parse_headers stoull rounds) line q
]

-- Path and query string.
unfoldable pub split_path : Text → HttpRequest → HttpRequest
unfolding cut_at parse_query_string
split_path full_path req = elim (cut_at b'?' full_path) [
  | none ↦ record req { path = full_path }
  | some (path, query) ↦ record req {
    path = path;
    query_params = parse_query_string query req.query_params;
  }
]

-- What ParseRequestLine does with the line. Each line takes 2 bytes at least, so the buffer's length
-- is more rounds than the headers take.
unfoldable pub request_line_of : (Text → Option ℕ) → Text → HttpParser → Parsed
unfolding next_word is_empty fail split_path parse_headers
request_line_of stoull line p =
    let (method, rest) = next_word line in
    let (full_path, rest') = next_word rest in
    let (version, _) = next_word rest' in
    if is_empty method || is_empty full_path
    then fail p
    else parse_headers stoull (suc (length p.buffer)) (record p {
      current = split_path full_path (record p.current { method = method; version = version });
      state = State.headers;
    })

-- state_ == State::Complete || state_ == State::Error
unfoldable pub has_ended : State → Bool
has_ended State.complete = true
has_ended State.error = true
has_ended State.request_line = false
has_ended State.headers = false
has_ended State.body = false

unfoldable pub parse_request_line : (Text → Option ℕ) → HttpParser → Parsed
unfolding has_ended next_line request_line_of
parse_request_line stoull p =
    if has_ended p.state then parsed ParseResult.error p else elim (next_line p) [
      | none ↦ parsed ParseResult.incomplete p
      | some (line, q) ↦ request_line_of stoull line q
    ]

unfoldable pub feed : (Text → Option ℕ) → Text → HttpParser → Parsed
unfolding parse_request_line
feed stoull bytes p = parse_request_line stoull (record p { buffer = p.buffer ++ bytes })

unfoldable pub reset : HttpParser → HttpParser
reset p = record new { buffer = p.buffer }

unfoldable pub take_request : HttpParser → HttpRequest × HttpParser
unfolding reset
take_request p = (p.current, reset p)
