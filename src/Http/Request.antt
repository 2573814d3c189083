-- ===== src/Http/Request.antt =====
-- network/HttpParser.hpp and HttpParser.cpp: a request, and what its methods read in it.
use distributed_key_value_st.Base.{
  ℕ, ◌+◌, Bool, not, ◌&&◌, Option, none, some, [], ◌∷◌, map, if◌then◌else◌, leb, Text, codes,
  text_eq, Assoc, lookup,
}

pub record HttpRequest : Type 0 where
  pub method : Text
  pub path : Text
  pub version : Text
  pub headers : Assoc Text
  pub body : Text
  pub query_params : Assoc Text
  pub path_params : Assoc Text

-- `HttpRequest req;`
abbrev pub no_request : HttpRequest
no_request = record {
  method = [];
  path = [];
  version = codes "HTTP/1.1";
  headers = [];
  body = [];
  query_params = [];
  path_params = [];
}

-- ::tolower in the C locale.
unfoldable pub to_lower : ℕ → ℕ
to_lower c = if leb 65 c && leb c 90 then c + 32 else c

-- The first header whose name, in lower case, is `name`.
unfoldable pub find_lower : Text → Assoc Text → Option Text
unfolding to_lower text_eq
find_lower name [] = none
find_lower name ((k, v) ∷ headers) =
    if text_eq (map to_lower k) name then some v else find_lower name headers

unfoldable pub get_header : Text → HttpRequest → Text
unfolding find_lower
get_header name req = elim (find_lower (map to_lower name) req.headers) [ none ↦ [] | some v ↦ v ]

unfoldable pub get_query_param : Text → HttpRequest → Option Text
unfolding lookup
get_query_param key req = lookup key req.query_params

unfoldable pub is_keep_alive : HttpRequest → Bool
unfolding get_header
is_keep_alive req =
    let conn = map to_lower (get_header (codes "connection") req) in
    if text_eq req.version (codes "HTTP/1.1")
    then not (text_eq conn (codes "close"))
    else text_eq conn (codes "keep-alive")
