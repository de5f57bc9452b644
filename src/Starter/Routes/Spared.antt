-- ===== src/Starter/Routes/Spared.antt =====
-- Requests to the API of mockgo/starter/starter.go that leave the value of a key as it is.
use text.Mathlib.Text.{starts_with}
use mathlib.Core.Path.{subst}
use mockgo_server.Prelude.{
  ℕ, String, ◌<>◌, ◌==◌, ◌&&◌, ◌≡◌, ◌≢◌, refl, sym, true, false, false≢true, Bool-cases, ◌⊎◌, inl,
  inr, List, [], ◌∷◌, ◌++◌, Option, none, some, none≢some, GoMap, All, All-append, ok, arith,
}
use mockgo_server.Http.{Request, path_var}
use mockgo_server.Http.Writer.{Writer}
use mockgo_server.Util.{Handler, Route, is_protected}
use mockgo_server.Kvstore.{Value}
use mockgo_server.Kvstore.Storing.{StoresValues}
use mockgo_server.Kvstore.Handlers.{kv_routes}
use mockgo_server.Kvstore.Handled.{
  Puts, put_handler-Puts, remove_handler-Puts, get_handler-keeps, get_all_handler-keeps,
}
use mockgo_server.Matches.{Match}
use mockgo_server.Mock.Load.{handle_reload}
use mockgo_server.Starter.{BasicConfiguration}
use mockgo_server.Starter.Server.{Program, Session}
use mockgo_server.Starter.Routes.{
  ServerRoute, accepts_path, health, show_metrics, on_tree, on_stored, on_kv, mock_config,
  lift_routes, lift_route, route_at, mock_route, store_routes, kv_store_routes, metrics_route,
  server_routes,
}
use mockgo_server.Starter.Routes.Addressed.{key_path}
use mockgo_server.Starter.Routes.Taken.{accepts_mock-under}

module _ {R T : Type 0} (program : Program R T) (c : BasicConfiguration) (store key : String) where
  open program use {storage}

  -- A request outside the API, one that is no write, one that mux matches with another key, or one that has not the
  -- right credentials.
  pub data Spares (r : Request) : Type 0 where
    outside : starts_with r.path c.api_path_prefix ≡ false → Spares r
    no_write : (r.method == "PUT") ≡ false → (r.method == "DELETE") ≡ false → Spares r
    other_key :
        ((vars : GoMap String)
          → program.mux.path_match (key_path program c) r ≡ some vars
          → (path_var (record r { vars = vars }) "store" == store
              && path_var (record r { vars = vars }) "key" == key)
            ≡ false)
        → Spares r
    refused :
        is_protected c.api_path_prefix r ≡ true
        → r.basic_auth ≢ some (c.api_username, c.api_password)
        → Spares r

  module _ (laws : StoresValues storage) (val : Value) where
    -- The value of the key.
    abbrev pub Finds : storage.State → Type 0
    Finds kv = (storage.get store key kv).0 ≡ ok val

    Puts-Finds :
        (r : Request) (w : Writer) (kv kv' : storage.State)
        → (path_var r "store" == store && path_var r "key" == key) ≡ false
        → Puts storage program.kv_json r w kv kv'
        → Finds kv
        → Finds kv'
    Puts-Finds r w kv kv' other' (inl same) h = subst Finds (sym same) h
    Puts-Finds r w kv kv' other' (inr (new, put)) h = subst Finds (sym put) (
        ground (arith, laws.get_after_put (path_var r "store") (path_var r "key") store key new kv))

    module _ (r : Request) where
      -- The matchers of the route change nothing, and its handler keeps the value.
      unfoldable pub Keeps : ServerRoute program → Type 0
      Keeps route =
          (s : Session program)
          → (found : Option (GoMap String)) × (route.accepts r s ≡ (found, r, s))
            × ((vars : GoMap String) (w : Writer) (s' : Session program)
                → found ≡ some vars
                → Finds s'.server.mock.kv
                → Finds (route.serve (record r { vars = vars }) w s').1.server.mock.kv)

      route_at-Keeps :
          (path method : String) (serve : Handler (Session program))
          → ((vars : GoMap String) (w : Writer) (s : Session program)
              → (method == "") ≡ true ⊎ (r.method == method) ≡ true
              → program.mux.path_match path r ≡ some vars
              → Finds s.server.mock.kv
              → Finds (serve (record r { vars = vars }) w s).1.server.mock.kv)
          → Keeps (route_at program path method serve)
      unfolding route_at Keeps accepts_path
      route_at-Keeps path method serve kept s = elim (Bool-cases (method == "")) [
        | inl any ↦ (
          program.mux.path_match path r,
          rw (any, accepts_path) refl,
          λ vars w s' found h. kept vars w s' (inl any) found h,
        )
        | inr given ↦ elim (Bool-cases (r.method == method)) [
          | inl same ↦ (
            program.mux.path_match path r,
            rw (given, same, accepts_path) refl,
            λ vars w s' found h. kept vars w s' (inr same) found h,
          )
          | inr other' ↦ (
            none,
            rw (given, other', accepts_path) refl,
            λ vars w s' found h. absurd (none≢some vars found),
          )
        ]
      ]

      lift_routes-Keeps :
          {S : Type 0} (lift : Handler S → Handler (Session program)) (routes : List (Route S))
          → ((h : Handler S) (w : Writer) (vars : GoMap String) (s : Session program)
              → Finds s.server.mock.kv
              → Finds (lift h (record r { vars = vars }) w s).1.server.mock.kv)
          → All Keeps (lift_routes program lift routes)
      unfolding lift_routes lift_route
      lift_routes-Keeps lift [] lifted = tt
      lift_routes-Keeps lift (route ∷ routes) lifted = (
        route_at-Keeps route.path route.method (lift route.handler)
            (λ vars w s is_method matched h. lifted route.handler w vars s h),
        lift_routes-Keeps lift routes lifted,
      )

      module _ (under : starts_with r.path c.api_path_prefix ≡ true)
          (elsewhere : (vars : GoMap String)
            → ((r.method == "PUT") ≡ true) ⊎ ((r.method == "DELETE") ≡ true)
            → program.mux.path_match (key_path program c) r ≡ some vars
            → (path_var (record r { vars = vars }) "store" == store
                && path_var (record r { vars = vars }) "key" == key)
              ≡ false) where
        kv_store_routes-Keeps : All Keeps (kv_store_routes program c)
        unfolding kv_store_routes lift_routes lift_route kv_routes on_kv
        kv_store_routes-Keeps = (
          route_at-Keeps (key_path program c) "PUT" _ (λ vars w s is_method matched h.
              elim is_method [
                | inl any ↦ absurd (false≢true any)
                | inr same ↦
                    Puts-Finds (record r { vars = vars }) w s.server.mock.kv _
                      (elsewhere vars (inl same) matched)
                      (put_handler-Puts storage program.kv_json (record r { vars = vars }) w
                        s.server.mock.kv)
                      h
              ]),
          (
            route_at-Keeps (key_path program c) "GET" _ (λ vars w s is_method matched h.
                subst Finds
                  (sym (
                    get_handler-keeps storage program.kv_json (record r { vars = vars }) w
                      s.server.mock.kv laws))
                  h),
            (
              route_at-Keeps (c.api_path_prefix <> "/kvstore/{store}") "GET" _
                  (λ vars w s is_method matched h.
                    subst Finds
                      (sym (
                        get_all_handler-keeps storage program.kv_json (record r { vars = vars }) w
                          s.server.mock.kv laws))
                      h),
              (
                route_at-Keeps (key_path program c) "DELETE" _ (λ vars w s is_method matched h.
                    elim is_method [
                      | inl any ↦ absurd (false≢true any)
                      | inr same ↦
                          Puts-Finds (record r { vars = vars }) w s.server.mock.kv _
                            (elsewhere vars (inr same) matched)
                            (remove_handler-Puts storage program.kv_json (record r { vars = vars })
                              w s.server.mock.kv)
                            h
                    ]),
                tt,
              ),
            ),
          ),
        )

        pub server_routes-Keeps :
            (now : ℕ) (heap : List Match) → All Keeps (server_routes program c now heap)
        unfolding server_routes store_routes metrics_route mock_route health show_metrics on_tree
            on_stored Keeps
        server_routes-Keeps now heap = (
          route_at-Keeps (c.api_path_prefix <> "/health") "GET" (health program)
              (λ vars w s is_method matched h. h),
          (
            λ s. (
              none,
              accepts_mock-under program c r now s under,
              λ vars w s' found h. absurd (none≢some vars found),
            ),
            (
              route_at-Keeps (c.api_path_prefix <> "/reload") "POST"
                  (on_tree program (handle_reload program.disk (mock_config program c)))
                  (λ vars w s is_method matched h. h),
              All-append Keeps (store_routes program c heap)
                  (kv_store_routes program c ++ metrics_route program c ∷ [])
                  (lift_routes-Keeps (on_stored program) _ (λ handle w vars s h. h))
                  (All-append Keeps (kv_store_routes program c) (metrics_route program c ∷ [])
                    kv_store_routes-Keeps
                    (
                      route_at-Keeps (c.api_path_prefix <> "/metrics") "" (show_metrics program)
                          (λ vars w s is_method matched h. h),
                      tt,
                    )),
            ),
          ),
        )
