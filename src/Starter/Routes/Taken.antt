-- ===== src/Starter/Routes/Taken.antt =====
-- How a request gets to a route of mockgo/starter/starter.go: routes that do not accept it are passed over, and the
-- first that does handles it.
use text.Mathlib.Text.{starts_with}
use mockgo_server.Prelude.{
  ◌⊎◌, inl, Bool-cases, ℕ, String, ◌==◌, ◌≡◌, ◌∙◌, refl, ap, true, false, inr, List, [], ◌∷◌, ◌++◌,
  All, none, some, GoMap,
}
use mockgo_server.Http.{Request}
use mockgo_server.Http.Writer.{fresh}
use mockgo_server.Util.{is_protected}
use mockgo_server.Util.Auth.{basic_auth_middleware_accepts}
use mockgo_server.Mock.Routes.{matcher}
use mockgo_server.Starter.{BasicConfiguration}
use mockgo_server.Starter.Server.{Program, Session}
use mockgo_server.Starter.Routes.{ServerRoute, accepts_path, accepts_mock, run_route, dispatch}

module _ {R T : Type 0} (program : Program R T) (c : BasicConfiguration) (r : Request) where
  pub accepts_path-same :
      (path method : String) (s : Session program)
      → (method == "") ≡ false
      → (r.method == method) ≡ true
      → accepts_path program path method r s ≡ (program.mux.path_match path r, r, s)
  unfolding accepts_path
  accepts_path-same path method s given same = rw (given, same, accepts_path) refl

  pub accepts_path-other :
      (path method : String) (s : Session program)
      → (method == "") ≡ false
      → (r.method == method) ≡ false
      → accepts_path program path method r s ≡ (none, r, s)
  unfolding accepts_path
  accepts_path-other path method s given other' = rw (given, other', accepts_path) refl

  pub accepts_path-unmatched :
      (path method : String) (s : Session program)
      → program.mux.path_match path r ≡ none
      → accepts_path program path method r s ≡ (none, r, s)
  unfolding accepts_path
  accepts_path-unmatched path method s unmatched = elim (Bool-cases (method == "")) [
    | inl any ↦ rw (any, accepts_path) (rw unmatched refl)
    | inr given ↦ elim (Bool-cases (r.method == method)) [
      | inl same ↦ rw (given, same, accepts_path) (rw unmatched refl)
      | inr other' ↦ rw (given, other', accepts_path) refl
    ]
  ]

  pub accepts_mock-under :
      (now : ℕ) (s : Session program)
      → starts_with r.path c.api_path_prefix ≡ true
      → accepts_mock program c.api_path_prefix now r s ≡ (none, r, s)
  unfolding accepts_mock matcher
  accepts_mock-under now s under = rw (under, matcher) refl

  dispatch-skips :
      (route : ServerRoute program) (routes : List (ServerRoute program)) (s : Session program)
      → route.accepts r s ≡ (none, r, s)
      → dispatch program c (route ∷ routes) r fresh s ≡ dispatch program c routes r fresh s
  unfolding dispatch run_route
  dispatch-skips route routes s skipped =
      ap
        (λ found.
          run_route program c route found (λ r' s'. dispatch program c routes r' fresh s') fresh)
        skipped

  -- A route that accepts a request handles it, where the request is authorized or its path is not protected.
  pub dispatch-takes :
      (route : ServerRoute program) (routes : List (ServerRoute program)) (vars : GoMap String)
      (s : Session program)
      → route.accepts r s ≡ (some vars, r, s)
      → (is_protected c.api_path_prefix r ≡ false)
        ⊎ (r.basic_auth ≡ some (c.api_username, c.api_password))
      → dispatch program c (route ∷ routes) r fresh s
        ≡ route.serve (record r { vars = vars }) fresh s
  unfolding dispatch run_route is_protected
  dispatch-takes route routes vars s taken passes =
      ap
        (λ found.
          run_route program c route found (λ r' s'. dispatch program c routes r' fresh s') fresh)
        taken
      ∙ basic_auth_middleware_accepts c.api_username c.api_password route.serve c.api_path_prefix
          (record r { vars = vars }) fresh s passes

  -- Routes that do not accept the request are passed over.
  pub dispatch-skips_each :
      (before after : List (ServerRoute program)) (s : Session program)
      → All (λ (route : ServerRoute program). route.accepts r s ≡ (none, r, s)) before
      → dispatch program c (before ++ after) r fresh s ≡ dispatch program c after r fresh s
  dispatch-skips_each [] after s h = refl
  dispatch-skips_each (route ∷ before) after s (skipped, more) =
      dispatch-skips route (before ++ after) s skipped ∙ dispatch-skips_each before after s more
