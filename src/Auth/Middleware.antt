-- ===== src/Auth/Middleware.antt =====
-- auth/AuthMiddleware.cpp and TokenStore.cpp, with ExtractBearerToken of auth/JwtValidator.cpp. `validate` stands for JwtValidator::Validate, and
-- `unauthorized` for HttpResponse::Unauthorized.
pub mod Guard
mod Tests
use distributed_key_value_st.Base.{
  ℕ, ◌+◌, Bool, true, false, not, ◌||◌, ◌&&◌, Option, none, some, List, [], ◌∷◌, ◌++◌, map,
  if◌then◌else◌, leb, Text, codes, text_eq, starts_with, Assoc, drop, length,
}
use distributed_key_value_st.Http.Request.{HttpRequest, get_header}
use distributed_key_value_st.Api.Router.{AuthContext, contains}

-- The jti values that are revoked.
pub record TokenStore : Type 0 where
  pub revoked : List Text

unfoldable pub revoke : Text → TokenStore → TokenStore
unfolding contains
revoke jti s = record {
  revoked = if contains jti s.revoked then s.revoked else s.revoked ++ jti ∷ [];
}

unfoldable pub is_revoked : Text → TokenStore → Bool
unfolding contains
is_revoked jti s = contains jti s.revoked

unfoldable pub revoked_count : TokenStore → ℕ
revoked_count s = length s.revoked

unfoldable pub extract_bearer_token : Text → Option Text
unfolding starts_with
extract_bearer_token header =
    if starts_with header (codes "Bearer ") then some (drop 7 header) else none

abbrev pub public_paths : List Text
public_paths = codes "/healthz" ∷ codes "/readyz" ∷ codes "/metrics" ∷ []

unfoldable pub add_public_path : Text → List Text → List Text
add_public_path path paths = paths ++ path ∷ []

-- The loop over publicPaths_.
unfoldable pub is_public : List Text → Text → Bool
unfolding starts_with
is_public [] path = false
is_public (p ∷ paths) path = (text_eq path p || starts_with path p) || is_public paths path

module _ {R : Type 0} (validate : Text → AuthContext) (unauthorized : Text → R) where
  -- The function that MakeMiddleware returns, with its arguments as it leaves them.
  unfoldable pub middleware :
      List Text → HttpRequest → AuthContext → Option R × (HttpRequest × AuthContext)
  unfolding is_public get_header extract_bearer_token
  middleware paths req auth =
      if is_public paths req.path
      then (none, (req, record auth { authenticated = true }))
      else elim (extract_bearer_token (get_header (codes "Authorization") req)) [
        | none ↦ (some (unauthorized (codes "missing Authorization header")), (req, auth))
        | some token ↦
            if not (validate token).authenticated
            then (some (unauthorized (codes "invalid or expired token")), (req, validate token))
            else (none, (req, validate token))
      ]
