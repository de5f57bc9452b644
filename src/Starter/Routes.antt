-- ===== src/Starter/Routes.antt =====
-- The routes that SetupRouter of mockgo/starter/starter.go registers, in their order, and the choice of a
-- route for a request.
pub mod Inert
pub mod Guarded
pub mod Kept
pub mod Outside
pub mod Noted
pub mod Clean
pub mod Taken
pub mod Fetched
pub mod Deleted
pub mod Addressed
pub mod Spared
pub mod Remembered
mod Tests
use mockgo_server.Prelude.{
  if◌then◌else◌, ℕ, String, ◌==◌, ◌<>◌, true, false, List, [], ◌∷◌, ◌++◌, Option, none, some, GoMap,
}
use mockgo_server.Http.{Request}
use mockgo_server.Http.Writer.{fresh, Writer, write_header, write}
use mockgo_server.Util.{Handler, Route, basic_auth_middleware}
use mockgo_server.Kvstore.Handlers.{kv_routes}
use mockgo_server.Matches.{Match}
use mockgo_server.Matches.Handlers.{match_routes}
use mockgo_server.Mock.Model.{Endpoint}
use mockgo_server.Mock.Tree.{Node}
use mockgo_server.Mock.Render.{Reply, answered, panicked}
use mockgo_server.Mock.Load.{Config, handle_reload}
use mockgo_server.Mock.Routes.{State, matcher, handler}
use mockgo_server.Starter.{BasicConfiguration}
use mockgo_server.Starter.Server.{Program, Server, Session}

module _ {R T : Type 0} (program : Program R T) where
  open program use {services, storage, engine, mux}

  -- The fields of RequestHandler of package mock that LoadFiles reads.
  abbrev pub mock_config : BasicConfiguration → Config
  mock_config c = record { mock_dir = c.mock_dir; mock_filepattern = c.mock_filepattern }

  -- A route of the whole server: its matchers, which the mock route runs on the state, with the variables of
  -- the path; and its handler.
  pub record ServerRoute : Type 0 where
    pub accepts : Request → Session program → Option (GoMap String) × Request × Session program
    pub serve : Handler (Session program)

  -- The handlers on a part of the state.
  on_tree : Handler (Node (Endpoint R T)) → Handler (Session program)
  on_tree h r w s =
      let (w', tree) = h r w s.server.tree in
      (w', record s { server = record s.server { tree = tree } })

  on_stored : Handler services.store.State → Handler (Session program)
  on_stored h r w s =
      let world = s.server.mock.world in
      let (w', stored) = h r w world.stored in
      (
        w',
        record s {
          server = record s.server {
            mock = record s.server.mock { world = record world { stored = stored } };
          };
        },
      )

  on_kv : Handler storage.State → Handler (Session program)
  on_kv h r w s =
      let (w', kv) = h r w s.server.mock.kv in
      (w', record s { server = record s.server { mock = record s.server.mock { kv = kv } } })

  unfoldable pub after_mock :
      Writer → Session program → Reply (State services engine) → Writer × Session program
  after_mock w s (answered w' mock) = (w', record s { server = record s.server { mock = mock } })
  after_mock w s (panicked mock) =
      (w, record s { server = record s.server { mock = mock }; aborted = true })

  -- Path(…) and Methods(…) of a route; no method stands for a route without Methods.
  pub accepts_path :
      String
      → String
      → Request
      → Session program
      → Option (GoMap String) × Request × Session program
  accepts_path path method r s = elim (method == "") [
    | true ↦ (mux.path_match path r, r, s)
    | false ↦ elim (r.method == method) [
      | true ↦ (mux.path_match path r, r, s)
      | false ↦ (none, r, s)
    ]
  ]

  route_at : String → String → Handler (Session program) → ServerRoute
  unfolding accepts_path
  route_at path method serve = record { accepts = accepts_path path method; serve = serve }

  lift_route : {S : Type 0} → (Handler S → Handler (Session program)) → Route S → ServerRoute
  unfolding route_at
  lift_route lift route = route_at route.path route.method (lift route.handler)

  lift_routes :
      {S : Type 0} → (Handler S → Handler (Session program)) → List (Route S) → List ServerRoute
  unfolding lift_route
  lift_routes lift [] = []
  lift_routes lift (route ∷ routes) = lift_route lift route ∷ lift_routes lift routes

  -- The handler of the health route.
  health : Handler (Session program)
  health r w s = ((write "OK" (write_header 200 w)).1, s)

  -- promhttp.Handler()
  show_metrics : Handler (Session program)
  show_metrics r w s = (program.metrics s.server.mock.world.counters w, s)

  pub accepts_mock :
      String → ℕ → Request → Session program → Option (GoMap String) × Request × Session program
  accepts_mock prefix now r s =
      let (found, r', mock) = matcher services engine prefix now s.server.tree r s.server.mock in
      (if found then some [] else none, r', record s { server = record s.server { mock = mock } })

  -- The route of AddRoutes of package mock without a path, for a request at the time `now`.
  mock_route : String → ℕ → ServerRoute
  unfolding accepts_mock after_mock
  mock_route prefix now = record {
    accepts = accepts_mock prefix now;
    serve = λ r w s. after_mock w s (handler services engine r w s.server.mock);
  }

  -- The routes of package matches, with the matches that are in the memory when the request comes, and those
  -- of package kvstore.
  store_routes : BasicConfiguration → List Match → List ServerRoute
  unfolding lift_routes on_stored
  store_routes c heap =
      lift_routes on_stored
        (match_routes services.store (program.match_json heap) c.api_path_prefix)

  kv_store_routes : BasicConfiguration → List ServerRoute
  unfolding lift_routes on_kv
  kv_store_routes c = lift_routes on_kv (kv_routes storage program.kv_json c.api_path_prefix)

  metrics_route : BasicConfiguration → ServerRoute
  unfolding route_at show_metrics
  metrics_route c = route_at (c.api_path_prefix <> "/metrics") "" show_metrics

  -- All routes, in the order of their registration.
  unfoldable pub server_routes : BasicConfiguration → ℕ → List Match → List ServerRoute
  unfolding route_at on_tree store_routes kv_store_routes metrics_route health mock_route
  server_routes c now heap =
      let prefix = c.api_path_prefix in
      route_at (prefix <> "/health") "GET" health
        ∷ mock_route prefix now
        ∷ route_at (prefix <> "/reload") "POST"
            (on_tree (handle_reload program.disk (mock_config c)))
        ∷ store_routes c heap
      ++ (kv_store_routes c ++ metrics_route c ∷ [])

  -- The handler of a route that accepts the request runs within the middleware; the others are tried
  -- where it does not accept.
  run_route :
      BasicConfiguration
      → ServerRoute
      → Option (GoMap String) × Request × Session program
      → (Request → Session program → Writer × Session program)
      → Writer
      → Writer × Session program
  run_route c route (none, r, s) others w = others r s
  run_route c route (some vars, r, s) others w =
      basic_auth_middleware c.api_path_prefix c.api_username c.api_password route.serve
        (record r { vars = vars }) w s

  -- mux takes the first route that accepts the request.
  unfoldable pub dispatch : BasicConfiguration → List ServerRoute → Handler (Session program)
  unfolding run_route
  dispatch c [] r w s = (mux.no_route r w, s)
  dispatch c (route ∷ routes) r w s =
      run_route c route (route.accepts r s) (λ r' s'. dispatch c routes r' w s') w

  -- The answer to a request at the time `now`; mux redirects a request whose path is not clean before it tries a route.
  unfoldable pub serve_request :
      BasicConfiguration → ℕ → Request → Server program → Writer × Session program
  unfolding server_routes dispatch
  serve_request c now r s =
      let start : Session program = record { server = s; aborted = false } in
      elim (mux.is_clean r.path) [
        | true ↦ dispatch c (server_routes c now s.mock.world.heap) r fresh start
        | false ↦ (mux.no_route r fresh, start)
      ]

  -- The server after requests, one after the other, each with the time at which it comes.
  unfoldable pub serve_requests :
      BasicConfiguration → List (ℕ × Request) → Server program → Server program
  unfolding serve_request
  serve_requests c [] s = s
  serve_requests c ((now, r) ∷ rs) s = serve_requests c rs (serve_request c now r s).1.server
