-- ===== src/Auth/Middleware/Guard.antt =====
-- auth/AuthMiddleware.cpp: which requests the middleware lets pass.
use distributed_key_value_st.Base.{
  ◌≡◌, refl, ◌∙◌, ap, sym, append_nil, ◌⊎◌, inl, inr, true, Option, none, some, List, [], ◌∷◌, ◌++◌,
  Option-cases, Bool-cases, Text, codes, text_eq, text_eq_iff, starts_with, take, drop, length,
}
use distributed_key_value_st.Http.Request.{HttpRequest, get_header}
use distributed_key_value_st.Api.Router.{AuthContext}
use distributed_key_value_st.Auth.Middleware.{extract_bearer_token, is_public, middleware}

-- The path begins with one of these.
abbrev pub Begins : List Text → Text → Type 0
Begins [] path = ⊥
Begins (p ∷ paths) path = ((rest : Text) × (path ≡ p ++ rest)) ⊎ Begins paths path

take-drop : (p s : Text) → take (length p) s ≡ p → s ≡ p ++ drop (length p) s
take-drop [] s h = refl
take-drop (x ∷ p) [] h = cc
take-drop (x ∷ p) (y ∷ s) h =
    let same : y ≡ x = cc in
    let tail : take (length p) s ≡ p = cc in ap (λ z. z ∷ s) same ∙ ap (◌∷◌ x) (take-drop p s tail)

bearer :
    (header token : Text)
    → extract_bearer_token header ≡ some token
    → header ≡ codes "Bearer " ++ token
unfolding extract_bearer_token starts_with
bearer header token h = elim (Bool-cases (starts_with header (codes "Bearer "))) [
  | inl begins ↦
      let same : ◌≡◌ {A = Option Text} (some (drop 7 header)) (some token) = rw begins at h in
      let cut : drop 7 header ≡ token = cc (same) in
      take-drop (codes "Bearer ") header ((text_eq_iff (take 7 header) (codes "Bearer ")).0 begins)
      ∙ ap (◌++◌ (codes "Bearer ")) cut
  | inr other ↦ let nothing : ◌≡◌ {A = Option Text} none (some token) = rw other at h in cc
]

starts_with-rest : (s p : Text) → starts_with s p ≡ true → (rest : Text) × (s ≡ p ++ rest)
unfolding starts_with
starts_with-rest s p h =
    (drop (length p) s, take-drop p s ((text_eq_iff (take (length p) s) p).0 h))

is_public-Begins :
    (paths : List Text) (path : Text) → is_public paths path ≡ true → Begins paths path
unfolding is_public
is_public-Begins [] path h = cc
is_public-Begins (p ∷ paths) path h = elim (Bool-cases (starts_with path p)) [
  | inl begins ↦ inl (starts_with-rest path p begins)
  | inr other ↦ elim (Bool-cases (text_eq path p)) [
    | inl same ↦ inl ([], (text_eq_iff path p).0 same ∙ sym (append_nil p))
    | inr differs ↦ inr (is_public-Begins paths path (rw (other, differs) at h))
  ]
]

-- A request that the middleware lets pass has a path that begins with a public one, and then the caller
-- keeps its roles; or its Authorization header is "Bearer " and a token that the validator accepts, and
-- the caller is the one that the validator finds in it. The request stays as it is.
pub middleware_lem :
    {R : Type 0} (validate : Text → AuthContext) (unauthorized : Text → R) (paths : List Text)
    (req : HttpRequest) (auth : AuthContext)
    → (middleware validate unauthorized paths req auth).0 ≡ none
    → let (req', auth') = (middleware validate unauthorized paths req auth).1 in
      (req' ≡ req)
      × (auth'.authenticated ≡ true)
      × ((Begins paths req.path × (auth'.roles ≡ auth.roles))
          ⊎ ((token : Text) × (get_header (codes "Authorization") req ≡ codes "Bearer " ++ token)
              × (auth' ≡ validate token)))
unfolding middleware
middleware_lem {R = R} validate unauthorized paths req auth h =
    elim (Bool-cases (is_public paths req.path)) [
      | inl free ↦
          rw (free, middleware) (refl, refl, inl (is_public-Begins paths req.path free, refl))
      | inr closed ↦
          let header = get_header (codes "Authorization") req in
          elim (Option-cases (extract_bearer_token header)) [
            | inl missing ↦
                let answered : ◌≡◌ {A = Option R}
                    (some (unauthorized (codes "missing Authorization header"))) none =
                  rw (closed, missing, middleware) at h in
                cc
            | inr (token, found) ↦ elim (Bool-cases (validate token).authenticated) [
              | inl accepted ↦
                  let passed : middleware validate unauthorized paths req auth
                      ≡ (none, (req, validate token)) =
                    rw (closed, found, middleware) (simp accepted refl) in
                  rw passed (refl, accepted, inr (token, bearer header token found, refl))
              | inr rejected ↦
                  let answered : ◌≡◌ {A = Option R}
                      (some (unauthorized (codes "invalid or expired token"))) none =
                    rw (closed, found, rejected, middleware) at h in
                  cc
            ]
          ]
    ]
