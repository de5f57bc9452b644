-- ===== src/Starter/Routes/Guarded.antt =====
-- What a request to the API without the right credentials can do to the server of
-- mockgo/starter/starter.go.
use text.Mathlib.Text.{starts_with}
use mockgo_server.Starter.Routes.Clean.{serve_request-clean, serve_request-unclean}
use mathlib.Core.Path.{subst}
use mockgo_server.Prelude.{
  sym, Bool-cases, ℕ, String, ◌≡◌, ◌≢◌, refl, arith, true, false, ◌⊎◌, inl, inr, List, [], ◌∷◌,
  GoMap, Option, none, some, All,
}
use mockgo_server.Http.{Request}
use mockgo_server.Http.Writer.{Writer, fresh, status_after}
use mockgo_server.Util.{is_protected}
use mockgo_server.Util.Auth.{basic_auth_middleware_refuses}
use mockgo_server.Starter.{BasicConfiguration}
use mockgo_server.Starter.Server.{Program, Server, Session}
use mockgo_server.Starter.Routes.{ServerRoute, server_routes, dispatch, serve_request, run_route}
use mockgo_server.Starter.Routes.Inert.{Inert, server_routes-Inert}

module _ {R T : Type 0} (program : Program R T) (c : BasicConfiguration) (r : Request)
    (guarded : is_protected c.api_path_prefix r ≡ true)
    (stranger : r.basic_auth ≢ some (c.api_username, c.api_password)) where
  pub under : starts_with r.path c.api_path_prefix ≡ true
  unfolding is_protected
  under = ground (arith, guarded)

  -- The state is as it was, and the answer is 401 or that no route was found.
  abbrev pub Refused : Writer → Session program → Writer × Session program → Type 0
  Refused w s (w', s') =
      (s' ≡ s) × ((w'.status ≡ status_after 401 w) ⊎ (w' ≡ program.mux.no_route r w))

  run_route-Refused :
      (route : ServerRoute program) (found : Option (GoMap String)) (w : Writer)
      (s : Session program) (others : Request → Session program → Writer × Session program)
      → Refused w s (others r s)
      → Refused w s (run_route program c route (found, r, s) others w)
  unfolding run_route is_protected
  run_route-Refused route none w s others h = h
  run_route-Refused route (some vars) w s others h =
      let (kept, status) =
        basic_auth_middleware_refuses c.api_username c.api_password route.serve c.api_path_prefix
          (record r { vars = vars }) w s guarded stranger in
      (kept, inl status)

  dispatch-Refused :
      (routes : List (ServerRoute program)) (w : Writer) (s : Session program)
      → All (Inert program r) routes
      → Refused w s (dispatch program c routes r w s)
  unfolding dispatch Inert
  dispatch-Refused [] w s h = (refl, inr refl)
  dispatch-Refused (route ∷ routes) w s (inert, more) =
      let (found, same) = inert s in
      rw same (
        run_route-Refused route found w s (λ r' s'. dispatch program c routes r' w s')
          (dispatch-Refused routes w s more))

  -- A request to the API, not to a path that ends in "/health", without the right credentials leaves the whole
  -- server as it is: no route looks at the endpoints, the recorded requests or the values for it. It is
  -- answered 401, or as mux itself answers where no route gets it.
  pub serve_request-Refused :
      (now : ℕ) (s : Server program)
      → ((serve_request program c now r s).1 ≡ record { server = s; aborted = false })
        × (((serve_request program c now r s).0.status ≡ some 401)
            ⊎ ((serve_request program c now r s).0 ≡ program.mux.no_route r fresh))
  unfolding Refused
  serve_request-Refused now s = elim (Bool-cases (program.mux.is_clean r.path)) [
    | inl clean ↦
        subst (Refused fresh (record { server = s; aborted = false }))
          (sym (serve_request-clean program c now r s clean))
          (dispatch-Refused (server_routes program c now s.mock.world.heap) fresh _
            (server_routes-Inert program r c now s.mock.world.heap under))
    | inr unclean ↦
        subst (Refused fresh (record { server = s; aborted = false }))
          (sym (serve_request-unclean program c now r s unclean)) (refl, inr refl)
  ]
