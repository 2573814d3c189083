-- ===== src/Api/Router.antt =====
-- api/Router.hpp and Router.cpp. A response is a value of
-- `R`; `regex_match` stands for std::regex_match and returns the texts of the groups.
pub mod Dispatch
mod Tests
use distributed_key_value_st.Base.{
  ℕ, suc, Bool, true, false, not, ◌||◌, ◌&&◌, Option, none, some, List, [], ◌∷◌, ◌++◌,
  if◌then◌else◌, ◌==◌, Text, codes, text_eq, is_empty, Assoc, assign,
}
use distributed_key_value_st.Http.Request.{HttpRequest}

pub record AuthContext : Type 0 where
  pub authenticated : Bool
  pub subject : Text
  pub raw_token : Text
  pub roles : List Text

pub record Route (R : Type 0) : Type 0 where
  pub method : Text
  pub pattern_text : Text
  pub regex : Text
  pub param_names : List Text
  pub handler : HttpRequest → AuthContext → R
  pub required_roles : List Text

-- std::find(…) != end()
unfoldable pub contains : Text → List Text → Bool
unfolding text_eq
contains x [] = false
contains x (y ∷ ys) = text_eq y x || contains x ys

unfoldable pub has_role : Text → AuthContext → Bool
unfolding contains
has_role role auth = contains role auth.roles || contains (codes "admin") auth.roles

-- std::string(s).find(c) != npos
unfoldable pub is_among : ℕ → Text → Bool
is_among c [] = false
is_among c (d ∷ ds) = d == c || is_among c ds

-- A backslash before each of the characters.
unfoldable pub escape : Text → Text → Text
unfolding is_among
escape metachars [] = []
escape metachars (c ∷ s) =
    let rest = escape metachars s in
    if is_among c metachars then codes "\\" ++ c ∷ rest else c ∷ rest

-- The loop of CompilePattern: the rest of the regular expression and of the names. The second argument
-- is the name read so far, behind a `{` whose `}` has not come.
unfoldable pub compile_from : Text → Option Text → Text × List Text
unfolding escape
compile_from [] none = ([], [])
compile_from [] (some name) = (escape (codes ".+*?^${}()|[]\\") (codes "{" ++ name), [])
compile_from (c ∷ s) none =
    let opened = compile_from s (some []) in
    let rest = compile_from s none in
    if text_eq (c ∷ []) (codes "{")
    then opened
    else (escape (codes ".+*?^$|[]()\\") (c ∷ []) ++ rest.0, rest.1)
compile_from (c ∷ s) (some name) =
    let closed = compile_from s none in
    let longer = compile_from s (some (name ++ c ∷ [])) in
    if text_eq (c ∷ []) (codes "}") then (codes "(.+)" ++ closed.0, name ∷ closed.1) else longer

unfoldable pub compile_pattern : Text → Text × List Text
unfolding compile_from
compile_pattern pattern_text =
    let (regex, names) = compile_from pattern_text none in (codes "^" ++ regex ++ codes "$", names)

-- The loop over the required roles.
unfoldable pub has_any_role : List Text → AuthContext → Bool
unfolding has_role
has_any_role [] auth = false
has_any_role (role ∷ roles) auth = has_role role auth || has_any_role roles auth

-- Whether the caller passes a check of these roles.
unfoldable pub satisfies : List Text → AuthContext → Bool
unfolding has_any_role
satisfies [] auth = true
satisfies (role ∷ roles) auth = has_any_role (role ∷ roles) auth

module _ {R : Type 0} where
  unfoldable pub authorized : Route R → AuthContext → Bool
  unfolding satisfies
  authorized route auth = satisfies route.required_roles auth

  -- route.method == req.method || route.method == "*"
  unfoldable pub takes_method : Route R → HttpRequest → Bool
  takes_method route req = text_eq route.method req.method || text_eq route.method (codes "*")

  unfoldable pub add_route :
      Text → Text → (HttpRequest → AuthContext → R) → List Text → List (Route R) → List (Route R)
  unfolding compile_pattern
  add_route method pattern_text handler required_roles routes =
      let (regex, names) = compile_pattern pattern_text in
      routes
      ++ record {
        method = method;
        pattern_text = pattern_text;
        regex = regex;
        param_names = names;
        handler = handler;
        required_roles = required_roles;
      }
        ∷ []

-- params[paramNames[i]] = m[i + 1].str(), as long as both have an element.
unfoldable pub bind_params : List Text → List Text → Assoc Text → Assoc Text
bind_params [] groups params = params
bind_params (name ∷ names) [] params = params
bind_params (name ∷ names) (g ∷ groups) params = bind_params names groups (assign name g params)

module _ {R : Type 0} (regex_match : Text → Text → Option (List Text)) where
  unfoldable pub match_route : Route R → Text → Option (Assoc Text)
  unfolding bind_params
  match_route route path = elim (regex_match route.regex path) [
    | none ↦ none
    | some groups ↦ some (bind_params route.param_names groups [])
  ]

  unfoldable pub selects : Route R → HttpRequest → Option (Assoc Text)
  unfolding takes_method match_route
  selects route req = if takes_method route req then match_route route req.path else none

module _ {R : Type 0} (regex_match : Text → Text → Option (List Text))
    (forbidden not_found : Text → R) where
  -- What Dispatch does with the route that it has found.
  unfoldable pub run_route : Route R → Assoc Text → HttpRequest → AuthContext → R
  unfolding authorized
  run_route route params req auth =
      if authorized route auth
      then route.handler (record req { path_params = params }) auth
      else forbidden (codes "insufficient role")

  -- The loop over the routes.
  unfoldable pub dispatch_from : List (Route R) → HttpRequest → AuthContext → R
  unfolding selects run_route
  dispatch_from [] req auth =
      not_found (codes "no route for " ++ req.method ++ codes " " ++ req.path)
  dispatch_from (route ∷ routes) req auth = elim (selects regex_match route req) [
    | none ↦ dispatch_from routes req auth
    | some params ↦ run_route route params req auth
  ]

  -- The middleware takes its arguments by reference, so it returns them with its answer.
  unfoldable pub dispatch :
      Option (HttpRequest → AuthContext → Option R × (HttpRequest × AuthContext))
      → List (Route R)
      → HttpRequest
      → AuthContext
      → R
  unfolding dispatch_from
  dispatch none routes req auth = dispatch_from routes req auth
  dispatch (some middleware) routes req auth =
      let (answer, passed) = middleware req auth in
      elim answer [ none ↦ dispatch_from routes passed.0 passed.1 | some r ↦ r ]
