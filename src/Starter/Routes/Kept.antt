-- ===== src/Starter/Routes/Kept.antt =====
-- What every request to the server of mockgo/starter/starter.go keeps.
use mockgo_server.Starter.Routes.Clean.{serve_request-clean, serve_request-unclean}
use mathlib.Core.Path.{subst}
use mockgo_server.Prelude.{
  sym, ℕ, String, ◌<>◌, ◌==◌, false, inl, inr, Bool-cases, List, [], ◌∷◌, ◌++◌, Option, none, some,
  GoMap, All, All-append,
}
use mockgo_server.Http.{Request}
use mockgo_server.Http.Writer.{Writer, fresh}
use mockgo_server.Util.{Handler, Route}
use mockgo_server.Util.Auth.{basic_auth_middleware_keeps}
use mockgo_server.Matches.{Match}
use mockgo_server.Mock.Load.{handle_reload}
use mockgo_server.Mock.Load.Loaded.{IsLoaded, load_files-IsLoaded}
use mockgo_server.Mock.Render.{Reply, answered, panicked}
use mockgo_server.Mock.Routes.{State}
use mockgo_server.Starter.{BasicConfiguration}
use mockgo_server.Starter.Server.{Program, Server, Session}
use mockgo_server.Starter.Routes.{
  ServerRoute, accepts_path, accepts_mock, after_mock, health, show_metrics, on_tree, on_stored,
  on_kv, mock_config, lift_routes, lift_route, route_at, mock_route, store_routes, kv_store_routes,
  metrics_route, server_routes, run_route, dispatch, serve_requests,
}

module _ {R T : Type 0} (program : Program R T) where
  -- The endpoints of the tree have their templates and stand under their own paths and keys.
  abbrev Good : Session program → Type 0
  Good s = IsLoaded s.server.tree

  -- The matchers of the route keep it, and so does its handler.
  Keeps : ServerRoute program → Type 0
  Keeps route =
      ((r : Request) (s : Session program) → Good s → Good (route.accepts r s).2)
      × ((r : Request) (w : Writer) (s : Session program) → Good s → Good (route.serve r w s).1)

  accepts_path-Good :
      (path method : String) (r : Request) (s : Session program)
      → Good s
      → Good (accepts_path program path method r s).2
  unfolding accepts_path
  accepts_path-Good path method r s h = elim (Bool-cases (method == "")) [
    | inl any ↦ rw (any, accepts_path) h
    | inr given ↦ elim (Bool-cases (r.method == method)) [
      | inl same ↦ rw (given, same, accepts_path) h
      | inr other' ↦ rw (given, other', accepts_path) h
    ]
  ]

  lift_routes-Keeps :
      {S : Type 0} (lift : Handler S → Handler (Session program)) (routes : List (Route S))
      → ((h : Handler S) (r : Request) (w : Writer) (s : Session program)
          → Good s
          → Good (lift h r w s).1)
      → All Keeps (lift_routes program lift routes)
  unfolding lift_routes lift_route route_at Keeps
  lift_routes-Keeps lift [] lifted = tt
  lift_routes-Keeps lift (route ∷ routes) lifted = (
    (accepts_path-Good route.path route.method, lifted route.handler),
    lift_routes-Keeps lift routes lifted,
  )

  after_mock-Good :
      (w : Writer) (s : Session program) (reply : Reply (State program.services program.engine))
      → Good s
      → Good (after_mock program w s reply).1
  unfolding after_mock
  after_mock-Good w s (answered w' mock) h = h
  after_mock-Good w s (panicked mock) h = h

  server_routes-Keeps :
      (c : BasicConfiguration) (now : ℕ) (heap : List Match)
      → All Keeps (server_routes program c now heap)
  unfolding server_routes store_routes kv_store_routes metrics_route route_at mock_route
      accepts_mock Keeps health show_metrics on_tree on_stored on_kv handle_reload
  server_routes-Keeps c now heap = (
    (accepts_path-Good (c.api_path_prefix <> "/health") "GET", λ r w s h. h),
    (
      (λ r s h. h, λ r w s h. after_mock-Good w s _ h),
      (
        (
          accepts_path-Good (c.api_path_prefix <> "/reload") "POST",
          λ r w s h. load_files-IsLoaded program.disk (mock_config program c) s.server.tree h,
        ),
        All-append Keeps (store_routes program c heap)
            (kv_store_routes program c ++ metrics_route program c ∷ [])
            (lift_routes-Keeps (on_stored program) _ (λ h r w s good. good))
            (All-append Keeps (kv_store_routes program c) (metrics_route program c ∷ [])
              (lift_routes-Keeps (on_kv program) _ (λ h r w s good. good))
              ((accepts_path-Good (c.api_path_prefix <> "/metrics") "", λ r w s h. h), tt)),
      ),
    ),
  )

  run_route-Good :
      (c : BasicConfiguration) (route : ServerRoute program)
      (found : Option (GoMap String) × Request × Session program)
      (others : Request → Session program → Writer × Session program) (w : Writer)
      → Keeps route
      → Good found.2
      → ((r : Request) (s : Session program) → Good s → Good (others r s).1)
      → Good (run_route program c route found others w).1
  unfolding run_route Keeps
  run_route-Good c route (none, r, s) others w keeps good h = h r s good
  run_route-Good c route (some vars, r, s) others w keeps good h =
      basic_auth_middleware_keeps Good route.serve (record r { vars = vars })
        (keeps.1 (record r { vars = vars })) c.api_path_prefix c.api_username c.api_password w s
        good

  dispatch-Good :
      (routes : List (ServerRoute program)) (c : BasicConfiguration) (w : Writer) (r : Request)
      (s : Session program)
      → All Keeps routes
      → Good s
      → Good (dispatch program c routes r w s).1
  unfolding dispatch Keeps
  dispatch-Good [] c w r s h good = good
  dispatch-Good (route ∷ routes) c w r s (keeps, more) good =
      run_route-Good c route (route.accepts r s) _ w keeps (keeps.0 r s good)
        (λ r' s' good'. dispatch-Good routes c w r' s' more good')

  -- Whatever requests come, the endpoints of the tree keep their templates and stand under their own paths and
  -- keys, if they did before.
  pub serve_requests-IsLoaded :
      (rs : List (ℕ × Request)) (c : BasicConfiguration) (s : Server program)
      → IsLoaded s.tree
      → IsLoaded (serve_requests program c rs s).tree
  unfolding serve_requests
  serve_requests-IsLoaded [] c s loaded = loaded
  serve_requests-IsLoaded ((now, r) ∷ rs) c s loaded =
      serve_requests-IsLoaded rs c _ (elim (Bool-cases (program.mux.is_clean r.path)) [
        | inl clean ↦
            subst (λ x. Good x.1) (sym (serve_request-clean program c now r s clean))
              (dispatch-Good (server_routes program c now s.mock.world.heap) c fresh r
                (record { server = s; aborted = false })
                (server_routes-Keeps c now s.mock.world.heap) loaded)
        | inr unclean ↦
            subst (λ x. Good x.1) (sym (serve_request-unclean program c now r s unclean)) loaded
      ])
