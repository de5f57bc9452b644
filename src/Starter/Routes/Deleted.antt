-- ===== src/Starter/Routes/Deleted.antt =====
-- How the server of mockgo/starter/starter.go answers a client that deletes the matches of an endpoint.
use text.Mathlib.Text.{starts_with}
use mockgo_server.Starter.Routes.Clean.{serve_request-clean}
use mockgo_server.Prelude.{
  inr, ℕ, String, ◌<>◌, ◌==◌, ◌≡◌, ◌∙◌, refl, ap, true, false, [], ◌∷◌, some, take, drop, lookup,
}
use mockgo_server.Http.{Request}
use mockgo_server.Http.Writer.{Writer, fresh}
use mockgo_server.Util.{path_param_request}
use mockgo_server.Matches.Handlers.{match_routes, handle_delete_matches, answer_done}
use mockgo_server.Starter.{BasicConfiguration}
use mockgo_server.Starter.Server.{Program, Server, Session}
use mockgo_server.Starter.Routes.{
  on_stored, lift_routes, lift_route, route_at, mock_route, store_routes, server_routes,
  serve_request,
}
use mockgo_server.Starter.Routes.Taken.{
  accepts_path-same, accepts_path-other, accepts_mock-under, dispatch-skips_each, dispatch-takes,
}

module _ {R T : Type 0} (program : Program R T) (c : BasicConfiguration) (r : Request) where
  -- A DELETE of the matches of an endpoint with the right credentials, as mux matches it.
  pub record DeletesMatches (id : String) : Type 0 where
    pub clean : program.mux.is_clean r.path ≡ true
    pub under : starts_with r.path c.api_path_prefix ≡ true
    pub deletes : r.method ≡ "DELETE"
    pub authorized : r.basic_auth ≡ some (c.api_username, c.api_password)
    pub matched :
        program.mux.path_match (c.api_path_prefix <> "/matches/{endpointId}") r
        ≡ some (("endpointId", id) ∷ [])
    pub named : (id == "") ≡ false

  -- The store deletes, and the answer is what becomes of that.
  abbrev pub deleted : String → Session program → Writer × Session program
  deleted id s =
      let world = s.server.mock.world in
      let (done, stored) = program.services.store.delete_matches id world.stored in
      (
        answer_done done fresh,
        record s {
          server = record s.server {
            mock = record s.server.mock { world = record world { stored = stored } };
          };
        },
      )

  deleted_by_handler :
      (id : String) (s : Session program)
      → (id == "") ≡ false
      → on_stored program
          (path_param_request ("endpointId" ∷ []) (
            handle_delete_matches program.services.store
              (program.match_json s.server.mock.world.heap)))
          (record r { vars = ("endpointId", id) ∷ [] })
          fresh
          s
        ≡ deleted id s
  unfolding on_stored path_param_request handle_delete_matches lookup
  deleted_by_handler id s named = rw named refl

  pub serve_request-DeletesMatches :
      (id : String) (now : ℕ) (s : Server program)
      → DeletesMatches id
      → serve_request program c now r s ≡ deleted id (record { server = s; aborted = false })
  unfolding server_routes store_routes lift_routes lift_route route_at mock_route match_routes
  serve_request-DeletesMatches id now s h =
      let start : Session program = record { server = s; aborted = false } in
      let routes = server_routes program c now s.mock.world.heap in
      let other =
        λ (method : String) (path : String) (given : (method == "") ≡ false)
            (differs : ("DELETE" == method) ≡ false).
          accepts_path-other program c r path method start given
            (ap (λ m. m == method) h.deletes ∙ differs) in
      serve_request-clean program c now r s h.clean
      ∙ dispatch-skips_each program c r (take 7 routes) (drop 7 routes) start (
        other "GET" (c.api_path_prefix <> "/health") refl refl,
        (
          accepts_mock-under program c r now start h.under,
          (
            other "POST" (c.api_path_prefix <> "/reload") refl refl,
            (
              other "GET" (c.api_path_prefix <> "/matches/{endpointId}") refl refl,
              (
                other "GET" (c.api_path_prefix <> "/matchesCount/{endpointId}") refl refl,
                (
                  other "GET" (c.api_path_prefix <> "/mismatches") refl refl,
                  (other "GET" (c.api_path_prefix <> "/mismatchesCount") refl refl, tt),
                ),
              ),
            ),
          ),
        ),
      )
      ∙ dispatch-takes program c r
          (route_at program (c.api_path_prefix <> "/matches/{endpointId}") "DELETE" (
            on_stored program (
              path_param_request ("endpointId" ∷ []) (
                handle_delete_matches program.services.store
                  (program.match_json s.mock.world.heap)))))
          (drop 8 routes) (("endpointId", id) ∷ []) start
          (accepts_path-same program c r (c.api_path_prefix <> "/matches/{endpointId}") "DELETE"
              start refl (ap (λ m. m == "DELETE") h.deletes)
            ∙ ap (λ found. (found, r, start)) h.matched)
          (inr h.authorized)
      ∙ deleted_by_handler id start h.named
