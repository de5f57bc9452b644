-- ===== src/Starter/Routes/Outside.antt =====
-- How the server of mockgo/starter/starter.go answers a request outside the prefix of the API.
use text.Mathlib.Text.{starts_with}
use mockgo_server.Starter.Routes.Clean.{serve_request-clean}
use mockgo_server.Prelude.{
  ℕ, String, ◌<>◌, ◌==◌, ◌≡◌, ◌∙◌, refl, ap, sym, arith, true, false, Bool, false≢true, inl, inr,
  Bool-cases, List, [], ◌∷◌, ◌++◌, Option, Option-cases, none, some, GoMap, All, if◌then◌else◌,
}
use mockgo_server.Http.{Request}
use mockgo_server.Http.Writer.{Writer, fresh}
use mockgo_server.Util.Auth.{basic_auth_middleware_accepts}
use mockgo_server.Mock.Load.{handle_reload}
use mockgo_server.Util.{is_protected}
use mockgo_server.Matches.{Match}
use mockgo_server.Matches.Handlers.{match_routes}
use mockgo_server.Kvstore.Handlers.{kv_routes}
use mockgo_server.Mock.Routes.{State, matcher, handler}
use mockgo_server.Mock.Routes.Path.{matcher-path}
use mockgo_server.Starter.{BasicConfiguration}
use mockgo_server.Starter.Server.{Program, Server, Session}
use mockgo_server.Starter.Routes.{
  ServerRoute, accepts_path, accepts_mock, after_mock, on_tree, mock_config, lift_routes,
  lift_route, route_at, mock_route, store_routes, kv_store_routes, metrics_route, server_routes,
  run_route, dispatch, serve_request,
}

module _ {R T : Type 0} (program : Program R T) (c : BasicConfiguration)
    (literal : (path : String) (r : Request) (vars : GoMap String)
      → program.mux.path_match (c.api_path_prefix <> path) r ≡ some vars
      → starts_with r.path c.api_path_prefix ≡ true) where
  -- The route does not accept the request, and changes nothing.
  Misses : Request → ServerRoute program → Type 0
  Misses r route = (s : Session program) → route.accepts r s ≡ (none, r, s)

  no_path_match :
      (r : Request) (path : String)
      → starts_with r.path c.api_path_prefix ≡ false
      → program.mux.path_match (c.api_path_prefix <> path) r ≡ none
  no_path_match r path outside =
      elim (Option-cases (program.mux.path_match (c.api_path_prefix <> path) r)) [
        | inl missing ↦ missing
        | inr (vars, found) ↦ absurd (false≢true (sym outside ∙ literal path r vars found))
      ]

  accepts_path-Misses :
      (r : Request) (path method : String) (s : Session program)
      → starts_with r.path c.api_path_prefix ≡ false
      → accepts_path program (c.api_path_prefix <> path) method r s ≡ (none, r, s)
  unfolding accepts_path
  accepts_path-Misses r path method s outside =
      let missing = no_path_match r path outside in
      elim (Bool-cases (method == "")) [
        | inl any ↦ rw (any, accepts_path) (rw missing refl)
        | inr given ↦ elim (Bool-cases (r.method == method)) [
          | inl same ↦ rw (given, same, accepts_path) (rw missing refl)
          | inr other' ↦ rw (given, other', accepts_path) refl
        ]
      ]

  api_routes-Misses :
      (r : Request) (now : ℕ) (heap : List Match)
      → starts_with r.path c.api_path_prefix ≡ false
      → All (Misses r) (
          store_routes program c heap
          ++ (kv_store_routes program c ++ metrics_route program c ∷ []))
  unfolding store_routes kv_store_routes metrics_route lift_routes lift_route route_at Misses
      match_routes kv_routes
  api_routes-Misses r now heap outside =
      let miss : (path method : String) (s : Session program)
          → accepts_path program (c.api_path_prefix <> path) method r s ≡ (none, r, s) =
        λ path method s. accepts_path-Misses r path method s outside in
      (
        miss "/matches/{endpointId}" "GET",
        (
          miss "/matchesCount/{endpointId}" "GET",
          (
            miss "/mismatches" "GET",
            (
              miss "/mismatchesCount" "GET",
              (
                miss "/matches/{endpointId}" "DELETE",
                (
                  miss "/mismatches" "DELETE",
                  (
                    miss "/kvstore/{store}/{key}" "PUT",
                    (
                      miss "/kvstore/{store}/{key}" "GET",
                      (
                        miss "/kvstore/{store}" "GET",
                        (miss "/kvstore/{store}/{key}" "DELETE", (miss "/metrics" "", tt)),
                      ),
                    ),
                  ),
                ),
              ),
            ),
          ),
        ),
      )

  dispatch-Misses :
      (routes : List (ServerRoute program)) (r : Request) (w : Writer) (s : Session program)
      → All (Misses r) routes
      → dispatch program c routes r w s ≡ (program.mux.no_route r w, s)
  unfolding dispatch Misses run_route
  dispatch-Misses [] r w s h = refl
  dispatch-Misses (route ∷ routes) r w s (miss, more) =
      rw (miss s) (dispatch-Misses routes r w s more)

  -- What the mock route makes of a result of its matcher: the handler runs, or no route is found.
  abbrev pub mock_answer :
      Bool × Request × State program.services program.engine
      → Server program
      → Writer × Session program
  mock_answer (false, r, mock) s =
      (program.mux.no_route r fresh, record { server = record s { mock = mock }; aborted = false })
  mock_answer (true, r, mock) s =
      after_mock program fresh (record { server = record s { mock = mock }; aborted = false })
        (handler program.services program.engine (record r { vars = [] }) fresh mock)

  -- The result of the matcher as the route hands it on.
  abbrev handed_on :
      Bool × Request × State program.services program.engine
      → Server program
      → Option (GoMap String) × Request × Session program
  handed_on (found, r, mock) s = (
    if found then some [] else none,
    r,
    record { server = record s { mock = mock }; aborted = false },
  )

  run_route-mock_answer :
      (now : ℕ) (s : Server program) (heap : List Match)
      (found : Bool × Request × State program.services program.engine)
      → starts_with found.1.path c.api_path_prefix ≡ false
      → run_route program c
          (mock_route program c.api_path_prefix now)
          (handed_on found s)
          (λ r' s'.
            dispatch program c
              (route_at program
                    (c.api_path_prefix <> "/reload")
                    "POST"
                    (on_tree program (handle_reload program.disk (mock_config program c)))
                  ∷ store_routes program c heap
                ++ (kv_store_routes program c ++ metrics_route program c ∷ []))
              r'
              fresh
              s')
          fresh
        ≡ mock_answer found s
  unfolding run_route mock_route route_at is_protected Misses
  run_route-mock_answer now s heap (true, r, mock) outside =
      basic_auth_middleware_accepts c.api_username c.api_password _ c.api_path_prefix
        (record r { vars = [] }) fresh _ (inl (ground (arith, outside)))
  run_route-mock_answer now s heap (false, r, mock) outside = dispatch-Misses _ r fresh _ (
    (λ s'. accepts_path-Misses r "/reload" "POST" s' outside),
    api_routes-Misses r now heap outside,
  )

  -- A request with a clean path outside the prefix of the API, where mux matches a path template only with its
  -- literal prefix, is answered by the mock route alone: the matcher looks for an endpoint; if there is one, the
  -- handler renders its response, whatever credentials the request has; if there is none, mux answers that no route
  -- was found. The tree of the endpoints is as it was.
  pub serve_request-outside :
      (now : ℕ) (r : Request) (s : Server program)
      → starts_with r.path c.api_path_prefix ≡ false
      → program.mux.is_clean r.path ≡ true
      → serve_request program c now r s
        ≡ mock_answer
            (matcher program.services program.engine c.api_path_prefix now s.tree r s.mock)
            s
  unfolding server_routes accepts_mock mock_route route_at dispatch
  serve_request-outside now r s outside clean =
      serve_request-clean program c now r s clean
      ∙ rw
          (
            accepts_path-Misses r "/health" "GET" (record { server = s; aborted = false }) outside,
            run_route,
          )
          (run_route-mock_answer now s s.mock.world.heap
            (matcher program.services program.engine c.api_path_prefix now s.tree r s.mock)
            (ap (λ p. starts_with p c.api_path_prefix)
                (matcher-path program.services program.engine c.api_path_prefix now s.tree r s.mock)
              ∙ outside))
