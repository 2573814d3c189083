-- ===== src/Auth/Middleware/Tests.antt =====
-- auth/AuthMiddleware.cpp: a request with a token.
use distributed_key_value_st.Base.{◌≡◌, refl, ◌⊎◌, true, none, [], ◌∷◌, ◌++◌, Text, codes, text_eq}
use distributed_key_value_st.Http.Request.{HttpRequest, get_header}
use distributed_key_value_st.Api.Router.{AuthContext}
use distributed_key_value_st.Auth.Middleware.{middleware, public_paths, get_header}
use distributed_key_value_st.Auth.Middleware.Guard.{Begins, middleware_lem}

abbrev request : HttpRequest
request = record {
  method = codes "GET";
  path = codes "/v1";
  version = codes "HTTP/1.1";
  headers = (codes "authorization", codes "Bearer t") ∷ [];
  body = [];
  query_params = [];
  path_params = [];
}

-- A validator that takes every token.
abbrev accept : Text → AuthContext
accept token = record {
  authenticated = true;
  subject = codes "ann";
  raw_token = token;
  roles = codes "read" ∷ [];
}

abbrev refuse : Text → Text
refuse message = message

abbrev nobody : AuthContext
nobody = record (accept []) { roles = [] }

passed : (middleware accept refuse public_paths request nobody).0 ≡ none
unfolding middleware text_eq
passed = refl

middleware_lem_example :
    let (req, auth) = (middleware accept refuse public_paths request nobody).1 in
    (req ≡ request)
    × (auth.authenticated ≡ true)
    × ((Begins public_paths (codes "/v1") × (auth.roles ≡ []))
        ⊎ ((token : Text) × (get_header (codes "Authorization") request ≡ codes "Bearer " ++ token)
            × (auth ≡ accept token)))
middleware_lem_example = middleware_lem accept refuse public_paths request nobody passed
