-- ===== src/Starter/Routes/Fetched.antt =====
-- How the server of mockgo/starter/starter.go answers a client that asks for the matches of an endpoint.
use text.Mathlib.Text.{starts_with}
use mockgo_server.Starter.Routes.Clean.{serve_request-clean}
use mockgo_server.Prelude.{
  inr, ℕ, String, ◌<>◌, ◌==◌, ◌≡◌, ◌∙◌, refl, ap, true, false, List, [], ◌∷◌, drop, take, none,
  some, lookup,
}
use mockgo_server.Http.{Request, header_get}
use mockgo_server.Http.Writer.{Writer, fresh}
use mockgo_server.Util.{Handler, json_accept_request, path_param_request}
use mockgo_server.Matches.{Match}
use mockgo_server.Matches.Handlers.{match_routes, handle_get_matches, answer}
use mockgo_server.Starter.Routes.Taken.{
  accepts_path-same, accepts_path-other, accepts_mock-under, dispatch-skips_each, dispatch-takes,
}
use mockgo_server.Starter.{BasicConfiguration}
use mockgo_server.Starter.Server.{Program, Server, Session}
use mockgo_server.Starter.Routes.{
  on_stored, lift_routes, lift_route, route_at, mock_route, store_routes, server_routes,
  serve_request,
}

module _ {R T : Type 0} (program : Program R T) (c : BasicConfiguration) (r : Request) where
  -- A GET of the matches of an endpoint with the right credentials, as mux matches it.
  pub record FetchesMatches (id : String) : Type 0 where
    pub clean : program.mux.is_clean r.path ≡ true
    pub under : starts_with r.path c.api_path_prefix ≡ true
    pub gets : r.method ≡ "GET"
    pub authorized : r.basic_auth ≡ some (c.api_username, c.api_password)
    pub accepts_json : header_get r.header "Accept" ≡ "application/json"
    pub no_health : program.mux.path_match (c.api_path_prefix <> "/health") r ≡ none
    pub matched :
        program.mux.path_match (c.api_path_prefix <> "/matches/{endpointId}") r
        ≡ some (("endpointId", id) ∷ [])
    pub named : (id == "") ≡ false

  -- The server asks the store, writes what it returns, and leaves the store as GetMatches does.
  abbrev pub fetched : String → Session program → Writer × Session program
  fetched id s =
      let world = s.server.mock.world in
      let (found, stored) = program.services.store.get_matches id world.stored in
      (
        answer (program.match_json world.heap).marshal_matches found fresh,
        record s {
          server = record s.server {
            mock = record s.server.mock { world = record world { stored = stored } };
          };
        },
      )

  -- The handler of the route, for the matches in the memory.
  abbrev get_matches_handler : List Match → Handler program.services.store.State
  get_matches_handler heap = json_accept_request (
      path_param_request ("endpointId" ∷ [])
        (handle_get_matches program.services.store (program.match_json heap)))

  handled_matches :
      (id : String) (s : Session program)
      → header_get r.header "Accept" ≡ "application/json"
      → (id == "") ≡ false
      → on_stored program
          (get_matches_handler s.server.mock.world.heap)
          (record r { vars = ("endpointId", id) ∷ [] })
          fresh
          s
        ≡ fetched id s
  unfolding on_stored json_accept_request path_param_request handle_get_matches lookup
  handled_matches id s json named = rw (json, named) refl

  pub serve_request-FetchesMatches :
      (id : String) (now : ℕ) (s : Server program)
      → FetchesMatches id
      → serve_request program c now r s ≡ fetched id (record { server = s; aborted = false })
  unfolding server_routes store_routes lift_routes lift_route route_at mock_route match_routes
  serve_request-FetchesMatches id now s h =
      let start : Session program = record { server = s; aborted = false } in
      let get = ap (λ m. m == "GET") h.gets in
      let routes = server_routes program c now s.mock.world.heap in
      serve_request-clean program c now r s h.clean
      ∙ dispatch-skips_each program c r (take 3 routes) (drop 3 routes) start (
        accepts_path-same program c r (c.api_path_prefix <> "/health") "GET" start refl get
            ∙ ap (λ found. (found, r, start)) h.no_health,
        (
          accepts_mock-under program c r now start h.under,
          (
            accepts_path-other program c r (c.api_path_prefix <> "/reload") "POST" start refl
                (ap (λ m. m == "POST") h.gets),
            tt,
          ),
        ),
      )
      ∙ dispatch-takes program c r
          (route_at program (c.api_path_prefix <> "/matches/{endpointId}") "GET"
            (on_stored program (get_matches_handler s.mock.world.heap)))
          (drop 4 routes) (("endpointId", id) ∷ []) start
          (accepts_path-same program c r (c.api_path_prefix <> "/matches/{endpointId}") "GET" start
              refl get
            ∙ ap (λ found. (found, r, start)) h.matched)
          (inr h.authorized)
      ∙ handled_matches id start h.accepts_json h.named
