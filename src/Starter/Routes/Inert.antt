-- ===== src/Starter/Routes/Inert.antt =====
-- How the routes of mockgo/starter/starter.go look at a request under the prefix of the API: the matchers
-- leave the request and the state as they are.
use text.Mathlib.Text.{starts_with}
use mockgo_server.Prelude.{
  ℕ, String, ◌<>◌, ◌==◌, ◌≡◌, refl, true, inl, inr, Bool-cases, List, [], ◌∷◌, ◌++◌, Option, none,
  GoMap, All, All-append,
}
use mockgo_server.Http.{Request}
use mockgo_server.Util.{Handler, Route}
use mockgo_server.Matches.{Match}
use mockgo_server.Mock.Routes.{matcher}
use mockgo_server.Starter.{BasicConfiguration}
use mockgo_server.Starter.Server.{Program, Session}
use mockgo_server.Starter.Routes.{
  ServerRoute, accepts_path, accepts_mock, lift_routes, lift_route, route_at, store_routes,
  kv_store_routes, metrics_route, mock_route, server_routes,
}

module _ {R T : Type 0} (program : Program R T) (r : Request) where
  -- The matchers of the route change nothing.
  unfoldable pub Inert : ServerRoute program → Type 0
  Inert route =
      (s : Session program) → (found : Option (GoMap String)) × (route.accepts r s ≡ (found, r, s))

  accepts_path-Inert :
      (path method : String) (s : Session program)
      → (found : Option (GoMap String)) × (accepts_path program path method r s ≡ (found, r, s))
  unfolding accepts_path
  accepts_path-Inert path method s = elim (Bool-cases (method == "")) [
    | inl any ↦ (program.mux.path_match path r, rw (any, accepts_path) refl)
    | inr given ↦ elim (Bool-cases (r.method == method)) [
      | inl same ↦ (program.mux.path_match path r, rw (given, same, accepts_path) refl)
      | inr other' ↦ (none, rw (given, other', accepts_path) refl)
    ]
  ]

  lift_routes-Inert :
      {S : Type 0} (lift : Handler S → Handler (Session program)) (routes : List (Route S))
      → All Inert (lift_routes program lift routes)
  unfolding lift_routes lift_route route_at Inert
  lift_routes-Inert lift [] = tt
  lift_routes-Inert lift (route ∷ routes) =
      (accepts_path-Inert route.path route.method, lift_routes-Inert lift routes)

  accepts_mock-Inert :
      (prefix : String) (now : ℕ) (s : Session program)
      → starts_with r.path prefix ≡ true
      → accepts_mock program prefix now r s ≡ (none, r, s)
  unfolding accepts_mock matcher
  accepts_mock-Inert prefix now s under = rw (under, matcher) refl

  pub server_routes-Inert :
      (c : BasicConfiguration) (now : ℕ) (heap : List Match)
      → starts_with r.path c.api_path_prefix ≡ true
      → All Inert (server_routes program c now heap)
  unfolding server_routes store_routes kv_store_routes metrics_route route_at mock_route Inert
  server_routes-Inert c now heap under = (
    accepts_path-Inert (c.api_path_prefix <> "/health") "GET",
    (
      λ s. (none, accepts_mock-Inert c.api_path_prefix now s under),
      (
        accepts_path-Inert (c.api_path_prefix <> "/reload") "POST",
        All-append Inert (store_routes program c heap)
            (kv_store_routes program c ++ metrics_route program c ∷ []) (lift_routes-Inert _ _)
            (All-append Inert (kv_store_routes program c) (metrics_route program c ∷ [])
              (lift_routes-Inert _ _)
              (accepts_path-Inert (c.api_path_prefix <> "/metrics") "", tt)),
      ),
    ),
  )
