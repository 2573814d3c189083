-- ===== src/Api/Router/Dispatch.antt =====
-- api/Router.cpp: which answer Dispatch gives.
use distributed_key_value_st.Base.{
  ◌≡◌, ◌≢◌, text_eq, refl, ap, ◌⊎◌, inl, inr, true, Option, none, some, List, [], ◌∷◌, ◌++◌, arith,
  All, Option-cases, Bool-cases, Text, codes, text_eq_iff, Assoc, ◌↔◌,
}
use distributed_key_value_st.Http.Request.{HttpRequest}
use distributed_key_value_st.Api.Router.{
  AuthContext, Route, contains, has_role, has_any_role, authorized, satisfies, takes_method,
  bind_params, match_route, selects, run_route, dispatch_from, dispatch,
}

-- The text is one of these.
abbrev pub In : Text → List Text → Type 0
In x [] = ⊥
In x (y ∷ ys) = (y ≡ x) ⊎ In x ys

contains_iff : (x : Text) (ys : List Text) → (contains x ys ≡ true) ↔ In x ys
unfolding contains
contains_iff x [] = ground arith
contains_iff x (y ∷ ys) = ground (arith, text_eq_iff y x, contains_iff x ys)

-- The role is the caller's, or the caller is an administrator.
abbrev pub Has : Text → AuthContext → Type 0
Has role auth = In role auth.roles ⊎ In (codes "admin") auth.roles

has_role_iff : (role : Text) (auth : AuthContext) → (has_role role auth ≡ true) ↔ Has role auth
unfolding has_role
has_role_iff role auth =
    ground (arith, contains_iff role auth.roles, contains_iff (codes "admin") auth.roles)

has_any_role_iff :
    (roles : List Text) (auth : AuthContext)
    → (has_any_role roles auth ≡ true) ↔ ((role : Text) × In role roles × Has role auth)
unfolding has_any_role
has_any_role_iff [] auth = ((λ h. cc), λ (role, here, has). absurd here)
has_any_role_iff (r ∷ roles) auth =
    let ih = has_any_role_iff roles auth in
    let this = has_role_iff r auth in
    (
      λ h. elim (Bool-cases (has_role r auth)) [
        | inl has ↦ (r, inl refl, this.0 has)
        | inr lacks ↦
            let later : has_any_role roles auth ≡ true = rw lacks at h in
            let (role, here, has) = ih.0 later in (role, inr here, has)
      ],
      λ (role, here, has). elim here [
        | inl same ↦ let mine : has_role r auth ≡ true = this.1 (rw same has) in ground arith
        | inr later ↦ let rest = ih.1 (role, later, has) in ground arith
      ],
    )

-- The route asks for no role, or the caller has one of those that it asks for.
abbrev pub Allowed : {R : Type 0} → AuthContext → Route R → Type 0
Allowed auth route =
    (route.required_roles ≡ []) ⊎ ((role : Text) × In role route.required_roles × Has role auth)

satisfies_iff :
    (roles : List Text) (auth : AuthContext)
    → (satisfies roles auth ≡ true)
      ↔ ((roles ≡ []) ⊎ ((role : Text) × In role roles × Has role auth))
unfolding satisfies
satisfies_iff [] auth = ((λ h. inl refl), λ h. refl)
satisfies_iff (r ∷ roles) auth =
    let one = has_any_role_iff (r ∷ roles) auth in
    (
      (λ h. inr (one.0 h)),
      λ some_role. elim some_role [ inl none_asked ↦ cc | inr has ↦ one.1 has ],
    )

authorized_iff :
    {R : Type 0} (auth : AuthContext) (route : Route R)
    → (authorized route auth ≡ true) ↔ Allowed auth route
unfolding authorized
authorized_iff auth route = satisfies_iff route.required_roles auth

module _ {R : Type 0} (regex_match : Text → Text → Option (List Text))
    (forbidden not_found : Text → R) (req : HttpRequest) (auth : AuthContext) where
  -- The route is for the method of the request or for any, and its expression matches the path with
  -- groups that give the parameters.
  abbrev pub Takes : Route R → Assoc Text → Type 0
  Takes route params =
      ((route.method ≡ req.method) ⊎ (route.method ≡ codes "*"))
      × (groups : List Text) × (regex_match route.regex req.path ≡ some groups)
      × (params ≡ bind_params route.param_names groups [])

  -- The route is for another method, or its expression does not match.
  abbrev pub PassesBy : Route R → Type 0
  PassesBy route =
      ((route.method ≢ req.method) × (route.method ≢ codes "*"))
      ⊎ (regex_match route.regex req.path ≡ none)

  takes_groups :
      (route : Route R) (params : Assoc Text) (groups : List Text)
      → regex_match route.regex req.path ≡ some groups
      → selects regex_match route req ≡ some params
      → ((route.method ≡ req.method) ⊎ (route.method ≡ codes "*"))
        × (params ≡ bind_params route.param_names groups [])
  unfolding selects takes_method match_route
  takes_groups route params groups found h =
      let own = text_eq_iff route.method req.method in
      let any = text_eq_iff route.method (codes "*") in
      elim (Bool-cases (text_eq route.method req.method)) [
        | inl same ↦ (inl (own.0 same), ground (arith, found, same))
        | inr other ↦ elim (Bool-cases (text_eq route.method (codes "*"))) [
          | inl star ↦ (inr (any.0 star), ground (arith, found, other, star))
          | inr neither ↦ absurd (ground (arith, found, other, neither))
        ]
      ]

  selects-Takes :
      (route : Route R) (params : Assoc Text)
      → selects regex_match route req ≡ some params
      → Takes route params
  unfolding selects takes_method match_route
  selects-Takes route params h = elim (Option-cases (regex_match route.regex req.path)) [
    | inl none_there ↦ absurd (ground (arith, none_there))
    | inr (groups, found) ↦
        let (method, bound) = takes_groups route params groups found h in
        (method, groups, found, bound)
  ]

  selects-PassesBy : (route : Route R) → selects regex_match route req ≡ none → PassesBy route
  unfolding selects takes_method match_route
  selects-PassesBy route h = elim (Option-cases (regex_match route.regex req.path)) [
    | inl none_there ↦ inr none_there
    | inr (groups, found) ↦
        let own = text_eq_iff route.method req.method in
        let any = text_eq_iff route.method (codes "*") in
        inl (
          (λ e. (let same = own.1 e in absurd (ground (arith, found, same)))),
          λ e. (let same = any.1 e in absurd (ground (arith, found, same))),
        )
  ]

  -- The three answers: the handler of the first route that takes the request, with the parameters of
  -- its path, where the caller is allowed; a refusal where it is not; or that there is no route.
  pub data Answer (routes : List (Route R)) : R → Type 0 where
    handled :
        (before after : List (Route R)) (route : Route R) (params : Assoc Text)
        → routes ≡ before ++ route ∷ after
        → All PassesBy before
        → Takes route params
        → Allowed auth route
        → Answer routes (route.handler (record req { path_params = params }) auth)
    refused :
        (before after : List (Route R)) (route : Route R) (params : Assoc Text)
        → routes ≡ before ++ route ∷ after
        → All PassesBy before
        → Takes route params
        → ¬ Allowed auth route
        → Answer routes (forbidden (codes "insufficient role"))
    no_route :
        All PassesBy routes
        → Answer routes (not_found (codes "no route for " ++ req.method ++ codes " " ++ req.path))

  Answer-skip :
      (route : Route R) (routes : List (Route R)) (r : R)
      → PassesBy route
      → Answer routes r
      → Answer (route ∷ routes) r
  Answer-skip route routes r miss (handled before after found params split earlier match ok) =
      handled (route ∷ before) after found params (ap (◌∷◌ route) split) (miss, earlier) match ok
  Answer-skip route routes r miss (refused before after found params split earlier match denied) =
      refused (route ∷ before) after found params (ap (◌∷◌ route) split) (miss, earlier) match
        denied
  Answer-skip route routes r miss (no_route none_match) = no_route (miss, none_match)

  run_route-Answer :
      (route : Route R) (routes : List (Route R)) (params : Assoc Text)
      → Takes route params
      → Answer (route ∷ routes) (run_route regex_match forbidden not_found route params req auth)
  unfolding run_route
  run_route-Answer route routes params match = elim (Bool-cases (authorized route auth)) [
    | inl grants ↦
        rw grants
          (handled [] routes route params refl tt match ((authorized_iff auth route).0 grants))
    | inr denies ↦ rw denies (
        refused [] routes route params refl tt match
          (λ ok. cc (denies, (authorized_iff auth route).1 ok)))
  ]

  dispatch_from-Answer :
      (routes : List (Route R))
      → Answer routes (dispatch_from regex_match forbidden not_found routes req auth)
  unfolding dispatch_from
  dispatch_from-Answer [] = no_route tt
  dispatch_from-Answer (route ∷ routes) = elim (Option-cases (selects regex_match route req)) [
    | inl miss ↦
        rw (miss, dispatch_from)
          (Answer-skip route routes _ (selects-PassesBy route miss) (dispatch_from-Answer routes))
    | inr (params, match) ↦
        rw (match, dispatch_from)
          (run_route-Answer route routes params (selects-Takes route params match))
  ]

-- Dispatch gives the middleware's answer where it has one; else, for the request and the caller as the
-- middleware leaves them, it gives one of the answers of `Answer`.
pub dispatch_lem :
    {R : Type 0} (regex_match : Text → Text → Option (List Text)) (forbidden not_found : Text → R)
    (middleware : HttpRequest → AuthContext → Option R × (HttpRequest × AuthContext))
    (routes : List (Route R)) (req : HttpRequest) (auth : AuthContext)
    → let result = dispatch regex_match forbidden not_found (some middleware) routes req auth in
      let (answer, passed) = middleware req auth in
      (answer ≡ some result)
      ⊎ ((answer ≡ none) × Answer regex_match forbidden not_found passed.0 passed.1 routes result)
unfolding dispatch
dispatch_lem regex_match forbidden not_found middleware routes req auth =
    elim (Option-cases (middleware req auth).0) [
      | inl passes ↦
          rw (passes, dispatch)
            (inr (
              refl,
              dispatch_from-Answer regex_match forbidden not_found (middleware req auth).1.0
                  (middleware req auth).1.1 routes,
            ))
      | inr (r, answers) ↦ rw (answers, dispatch) (inl refl)
    ]
