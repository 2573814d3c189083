-- ===== src/Api/Router/Tests.antt =====
-- api/Router.cpp: a router with one route, and what it answers.
use distributed_key_value_st.Base.{
  ◌≡◌, refl, ◌⊎◌, true, Option, none, some, List, [], ◌∷◌, if◌then◌else◌, Text, codes, text_eq,
}
use distributed_key_value_st.Http.Request.{HttpRequest}
use distributed_key_value_st.Api.Router.{AuthContext, Route, add_route, compile_pattern, dispatch}
use distributed_key_value_st.Api.Router.Dispatch.{Answer, dispatch_lem}

-- The regular expression library on one path.
abbrev one_path : Text → Text → Option (List Text)
one_path regex path = if text_eq path (codes "/v1/kv/a") then some (codes "a" ∷ []) else none

abbrev refuse : Text → Text
refuse message = message

abbrev greet : HttpRequest → AuthContext → Text
greet req auth = auth.subject

abbrev request : HttpRequest
request = record {
  method = codes "GET";
  path = codes "/v1/kv/a";
  version = codes "HTTP/1.1";
  headers = [];
  body = [];
  query_params = [];
  path_params = [];
}

abbrev reader : AuthContext
reader = record {
  authenticated = true;
  subject = codes "ann";
  raw_token = [];
  roles = codes "reader" ∷ [];
}

abbrev routes : List (Route Text)
routes = add_route (codes "GET") (codes "/v1/kv/{key}") greet (codes "reader" ∷ []) []

-- The middleware lets every request pass.
abbrev pass : HttpRequest → AuthContext → Option Text × (HttpRequest × AuthContext)
pass req auth = (none, (req, auth))

compiled : compile_pattern (codes "/v1/kv/{key}") ≡ (codes "^/v1/kv/(.+)$", codes "key" ∷ [])
unfolding compile_pattern text_eq
compiled = refl

greeted : dispatch one_path refuse refuse (some pass) routes request reader ≡ codes "ann"
unfolding dispatch add_route
greeted = refl

dispatch_lem_example :
    let result = dispatch one_path refuse refuse (some pass) routes request reader in
    (◌≡◌ {A = Option Text} none (some result))
    ⊎ ((◌≡◌ {A = Option Text} none none)
        × Answer one_path refuse refuse request reader routes result)
dispatch_lem_example = dispatch_lem one_path refuse refuse pass routes request reader
