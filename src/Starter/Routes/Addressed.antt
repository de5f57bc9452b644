-- ===== src/Starter/Routes/Addressed.antt =====
-- How the server of mockgo/starter/starter.go answers a client of the key-value store.
use text.Mathlib.Text.{starts_with}
use mockgo_server.Starter.Routes.Clean.{serve_request-clean}
use mockgo_server.Prelude.{
  ◌⊎◌, eq_refl, ok, ℕ, String, ◌<>◌, ◌==◌, ◌≡◌, ◌∙◌, refl, ap, true, false, List, [], ◌∷◌, ◌++◌,
  drop, take, none, some, All,
}
use mockgo_server.Http.{Request, unread, header_get}
use mockgo_server.Http.Writer.{Writer, fresh, write_header}
use mockgo_server.Util.{is_protected, Handler}
use mockgo_server.Kvstore.{Value, null}
use mockgo_server.Kvstore.Storing.{StoresValues}
use mockgo_server.Kvstore.Handlers.{kv_routes, answer_value}
use mockgo_server.Kvstore.Handled.{
  address, put_handler, get_handler, remove_handler, put_handler_lem, get_handler_lem,
  remove_handler_lem,
}
use mockgo_server.Matches.Handlers.{match_routes}
use mockgo_server.Starter.Routes.Taken.{
  accepts_path-same, accepts_path-other, accepts_path-unmatched, accepts_mock-under,
  dispatch-skips_each, dispatch-takes,
}
use mockgo_server.Starter.{BasicConfiguration}
use mockgo_server.Starter.Server.{Program, Server, Session}
use mockgo_server.Starter.Routes.{
  accepts_path, dispatch, ServerRoute, on_kv, lift_routes, lift_route, route_at, mock_route,
  store_routes, kv_store_routes, server_routes, serve_request,
}

module _ {R T : Type 0} (program : Program R T) (c : BasicConfiguration) where
  open program use {storage}

  -- The path template of a key.
  abbrev pub key_path : String
  key_path = c.api_path_prefix <> "/kvstore/{store}/{key}"

  module _ (r : Request) where
    -- A request for a key, with the right credentials or for a path that is not protected, as mux matches it: with the
    -- template of the keys, and with none of the routes that come before it.
    pub record Addresses (store key : String) : Type 0 where
      pub clean : program.mux.is_clean r.path ≡ true
      pub under : starts_with r.path c.api_path_prefix ≡ true
      pub passes :
          (is_protected c.api_path_prefix r ≡ false)
          ⊎ (r.basic_auth ≡ some (c.api_username, c.api_password))
      pub matched :
          program.mux.path_match key_path r ≡ some (address storage program.kv_json store key)
      pub unmatched :
          All
            (λ path. program.mux.path_match (c.api_path_prefix <> path) r ≡ none)
            ("/health" ∷ "/reload" ∷ "/matches/{endpointId}" ∷ "/matchesCount/{endpointId}"
              ∷ "/mismatches" ∷ "/mismatchesCount" ∷ [])
      pub named_store : (store == "") ≡ false
      pub named_key : (key == "") ≡ false

    -- A PUT of a JSON text, or a DELETE, with the value that the key gets.
    pub data Sets : Value → Type 0 where
      puts :
          {val : Value} (body : String)
          → r.method ≡ "PUT"
          → header_get r.header "Content-Type" ≡ "application/json"
          → r.body ≡ unread body
          → program.kv_json.unmarshal body ≡ ok val
          → Sets val
      deletes : r.method ≡ "DELETE" → Sets null

    pub record Gets : Type 0 where
      pub gets : r.method ≡ "GET"
      pub accepts_json : header_get r.header "Accept" ≡ "application/json"

    -- The answer, and the server with another state of its storage.
    abbrev pub with_kv : Writer × storage.State → Server program → Writer × Session program
    with_kv (w, kv) s =
        (w, record { server = record s { mock = record s.mock { kv = kv } }; aborted = false })

    module _ (laws : StoresValues storage) (store key : String) (h : Addresses store key) (now : ℕ)
        (s : Server program) where
      start : Session program
      start = record { server = s; aborted = false }

      -- The routes before those of the key-value store do not accept the request.
      others_skip :
          All
            (λ (route : ServerRoute program). route.accepts r start ≡ (none, r, start))
            (take 9 (server_routes program c now s.mock.world.heap))
      unfolding server_routes store_routes kv_store_routes lift_routes lift_route route_at
          mock_route match_routes
      others_skip =
          let skip =
            λ (path method : String)
                (unmatched : program.mux.path_match (c.api_path_prefix <> path) r ≡ none).
              accepts_path-unmatched program c r (c.api_path_prefix <> path) method start
                unmatched in
          (
            skip "/health" "GET" h.unmatched.0,
            (
              accepts_mock-under program c r now start h.under,
              (
                skip "/reload" "POST" h.unmatched.1.0,
                (
                  skip "/matches/{endpointId}" "GET" h.unmatched.1.1.0,
                  (
                    skip "/matchesCount/{endpointId}" "GET" h.unmatched.1.1.1.0,
                    (
                      skip "/mismatches" "GET" h.unmatched.1.1.1.1.0,
                      (
                        skip "/mismatchesCount" "GET" h.unmatched.1.1.1.1.1.0,
                        (
                          skip "/matches/{endpointId}" "DELETE" h.unmatched.1.1.0,
                          (skip "/mismatches" "DELETE" h.unmatched.1.1.1.1.0, tt),
                        ),
                      ),
                    ),
                  ),
                ),
              ),
            ),
          )

      -- A route of the key-value store gets the request, if those before it have other methods.
      reaches :
          (method : String) (handle : Handler storage.State)
          (before after : List (ServerRoute program))
          → (method == "") ≡ false
          → r.method ≡ method
          → drop 9 (server_routes program c now s.mock.world.heap)
            ≡ before ++ route_at program key_path method (on_kv program handle) ∷ after
          → All (λ (route : ServerRoute program). route.accepts r start ≡ (none, r, start)) before
          → serve_request program c now r s
            ≡ with_kv
                (handle
                  (record r { vars = address storage program.kv_json store key })
                  fresh
                  s.mock.kv)
                s
      unfolding server_routes store_routes kv_store_routes lift_routes lift_route route_at
          mock_route match_routes kv_routes on_kv start
      reaches method handle before after given is_method routes skipped =
          let all_routes = server_routes program c now s.mock.world.heap in
          let route = route_at program key_path method (on_kv program handle) in
          serve_request-clean program c now r s h.clean
          ∙ dispatch-skips_each program c r (take 9 all_routes) (drop 9 all_routes) start
              others_skip
          ∙ ap (λ rs. dispatch program c rs r fresh start) routes
          ∙ dispatch-skips_each program c r before (route ∷ after) start skipped
          ∙ dispatch-takes program c r route after (address storage program.kv_json store key) start
              (accepts_path-same program c r key_path method start given
                  (ap (λ m. m == method) is_method ∙ eq_refl method)
                ∙ ap (λ found. (found, r, start)) h.matched)
              h.passes

      other_method :
          (actual path method : String)
          → r.method ≡ actual
          → (method == "") ≡ false
          → (actual == method) ≡ false
          → accepts_path program path method r start ≡ (none, r, start)
      other_method actual path method is_actual given differs =
          accepts_path-other program c r path method start given
            (ap (λ m. m == method) is_actual ∙ differs)

      pub serve_request-Sets :
          (val : Value)
          → Sets val
          → serve_request program c now r s
            ≡ with_kv (write_header 204 fresh, (storage.put store key val s.mock.kv).1) s
      unfolding server_routes store_routes kv_store_routes lift_routes lift_route route_at
          mock_route match_routes kv_routes
      serve_request-Sets val (puts body is_put typed unread' parsed) =
          reaches "PUT" (put_handler storage program.kv_json) []
            (drop 10 (server_routes program c now s.mock.world.heap)) refl is_put refl tt
          ∙ ap (λ x. with_kv x s)
              (put_handler_lem storage program.kv_json laws store key h.named_store h.named_key r
                fresh s.mock.kv body val typed unread' parsed)
      serve_request-Sets val (deletes is_delete) =
          let all_routes = server_routes program c now s.mock.world.heap in
          reaches "DELETE" (remove_handler storage program.kv_json) (take 3 (drop 9 all_routes))
            (drop 13 all_routes) refl is_delete refl
            (
              other_method "DELETE" key_path "PUT" is_delete refl refl,
              (
                other_method "DELETE" key_path "GET" is_delete refl refl,
                (
                  other_method "DELETE" (c.api_path_prefix <> "/kvstore/{store}") "GET" is_delete
                      refl refl,
                  tt,
                ),
              ),
            )
          ∙ ap (λ x. with_kv x s)
              (remove_handler_lem storage program.kv_json laws store key h.named_store h.named_key r
                fresh s.mock.kv)

      pub serve_request-Gets :
          Gets
          → serve_request program c now r s
            ≡ with_kv
                (
                  answer_value program.kv_json (storage.get store key s.mock.kv).0 fresh,
                  (storage.get store key s.mock.kv).1,
                )
                s
      unfolding server_routes store_routes kv_store_routes lift_routes lift_route route_at
          mock_route match_routes kv_routes
      serve_request-Gets g =
          let all_routes = server_routes program c now s.mock.world.heap in
          reaches "GET" (get_handler storage program.kv_json) (take 1 (drop 9 all_routes))
            (drop 11 all_routes) refl g.gets refl
            (other_method "GET" key_path "PUT" g.gets refl refl, tt)
          ∙ ap (λ x. with_kv x s)
              (get_handler_lem storage program.kv_json laws store key h.named_store h.named_key r
                fresh s.mock.kv g.accepts_json)
