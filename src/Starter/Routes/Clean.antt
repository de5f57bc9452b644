-- ===== src/Starter/Routes/Clean.antt =====
-- What mux does with a request to the server of mockgo/starter/starter.go before it tries a route.
use mockgo_server.Prelude.{ℕ, ◌≡◌, refl, true, false}
use mockgo_server.Http.{Request}
use mockgo_server.Http.Writer.{fresh}
use mockgo_server.Starter.{BasicConfiguration}
use mockgo_server.Starter.Server.{Program, Server}
use mockgo_server.Starter.Routes.{server_routes, dispatch, serve_request}

module _ {R T : Type 0} (program : Program R T) (c : BasicConfiguration) (now : ℕ) (r : Request)
    (s : Server program) where
  pub serve_request-clean :
      program.mux.is_clean r.path ≡ true
      → serve_request program c now r s
        ≡ dispatch program c
            (server_routes program c now s.mock.world.heap)
            r
            fresh
            (record { server = s; aborted = false })
  unfolding serve_request
  serve_request-clean clean = rw (clean, serve_request) refl

  pub serve_request-unclean :
      program.mux.is_clean r.path ≡ false
      → serve_request program c now r s
        ≡ (program.mux.no_route r fresh, record { server = s; aborted = false })
  unfolding serve_request
  serve_request-unclean unclean = rw (unclean, serve_request) refl
