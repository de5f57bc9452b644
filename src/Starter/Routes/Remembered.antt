-- ===== src/Starter/Routes/Remembered.antt =====
-- A client of the key-value store of the server of mockgo/starter/starter.go, and other requests to the API.
mod Tests
use text.Mathlib.Text.{starts_with}
use mockgo_server.Starter.Routes.Clean.{serve_request-clean, serve_request-unclean}
use mathlib.Core.Path.{subst}
use mockgo_server.Prelude.{
  eq_refl, arith, ap, ℕ, String, ◌<>◌, ◌==◌, ◌&&◌, ◌⊎◌, ◌≡◌, ◌∙◌, refl, sym, true, false, Bool,
  Bool-cases, false≢true, inl, inr, List, [], ◌∷◌, Option, none, some, GoMap, All, ok,
  if◌then◌else◌,
}
use mockgo_server.Http.{Request, path_var}
use mockgo_server.Http.Writer.{Writer, fresh}
use mockgo_server.Util.Auth.{basic_auth_middleware_keeps}
use mockgo_server.Kvstore.{Value}
use mockgo_server.Kvstore.Storing.{StoresValues}
use mockgo_server.Starter.{BasicConfiguration}
use mockgo_server.Starter.Server.{Program, Server, Session}
use mockgo_server.Starter.Routes.{
  after_mock, ServerRoute, server_routes, run_route, dispatch, serve_request, serve_requests,
}
use mockgo_server.Mock.Routes.{State, matcher}
use mockgo_server.Mock.Routes.Values.{Leaves, matcher-kv, handler-Leaves}
use mockgo_server.Mock.Render.{TemplateData, Reply, answered, panicked}
use mockgo_server.Starter.Routes.Outside.{mock_answer, serve_request-outside}
use mockgo_server.Starter.Routes.Guarded.{serve_request-Refused}
use mockgo_server.Starter.Routes.Spared.{
  Spares, outside, no_write, other_key, refused, Finds, Keeps, server_routes-Keeps,
}
use mockgo_server.Starter.Routes.Addressed.{
  key_path, Addresses, Sets, Gets, serve_request-Sets, serve_request-Gets,
}
use mockgo_server.Kvstore.Handlers.{answer_value}
use mockgo_server.Http.Writer.{write_header}

module _ {R T : Type 0} (program : Program R T) (c : BasicConfiguration) (store key : String) where
  open program use {storage}

  module _ (laws : StoresValues storage) (val : Value) where
    module _ (r : Request) where
      run_route-Finds :
          (route : ServerRoute program) (found : Option (GoMap String)) (s : Session program)
          (others : Request → Session program → Writer × Session program) (w : Writer)
          → ((vars : GoMap String) (w : Writer) (s : Session program)
              → found ≡ some vars
              → Finds program c store key laws val s.server.mock.kv
              → Finds program c store key laws val
                  (route.serve (record r { vars = vars }) w s).1.server.mock.kv)
          → Finds program c store key laws val s.server.mock.kv
          → Finds program c store key laws val (others r s).1.server.mock.kv
          → Finds program c store key laws val
              (run_route program c route (found, r, s) others w).1.server.mock.kv
      unfolding run_route
      run_route-Finds route none s others w kept h more = more
      run_route-Finds route (some vars) s others w kept h more =
          basic_auth_middleware_keeps
            (λ (s : Session program). Finds program c store key laws val s.server.mock.kv)
            route.serve (record r { vars = vars }) (λ w' s' h'. kept vars w' s' refl h')
            c.api_path_prefix c.api_username c.api_password w s h

      dispatch-Finds :
          (routes : List (ServerRoute program)) (w : Writer) (s : Session program)
          → All (Keeps program c store key laws val r) routes
          → Finds program c store key laws val s.server.mock.kv
          → Finds program c store key laws val (dispatch program c routes r w s).1.server.mock.kv
      unfolding dispatch Keeps
      dispatch-Finds [] w s h good = good
      dispatch-Finds (route ∷ routes) w s (keeps, more) good =
          let (found, same, kept) = keeps s in
          rw same
            (run_route-Finds route found s _ w kept good (dispatch-Finds routes w s more good))

    module _
        (literal : (path : String) (r : Request) (vars : GoMap String)
          → program.mux.path_match (c.api_path_prefix <> path) r ≡ some vars
          → starts_with r.path c.api_path_prefix ≡ true)
        (harmless : (t : T) (d : TemplateData) (kv : storage.State)
          → (storage.get store key (program.engine.execute t d kv).1).0
            ≡ (storage.get store key kv).0) where
      after_mock-Finds :
          (w : Writer) (s : Session program) (reply : Reply (State program.services program.engine))
          → Leaves program.services program.engine
              (Finds program c store key laws val)
              (λ t d kv found. harmless t d kv ∙ found)
              reply
          → Finds program c store key laws val (after_mock program w s reply).1.server.mock.kv
      unfolding after_mock
      after_mock-Finds w s (answered w' mock) h = h
      after_mock-Finds w s (panicked mock) h = h

      mock_answer-Finds :
          (found : Bool × Request × State program.services program.engine) (s : Server program)
          → Finds program c store key laws val found.2.kv
          → Finds program c store key laws val
              (mock_answer program c literal found s).1.server.mock.kv
      mock_answer-Finds (false, r, mock) s h = h
      mock_answer-Finds (true, r, mock) s h =
          after_mock-Finds fresh (record { server = record s { mock = mock }; aborted = false }) _
            (handler-Leaves program.services program.engine (Finds program c store key laws val)
              (λ t d kv found. harmless t d kv ∙ found) (record r { vars = [] }) fresh mock h)

      serve_request-outside-Finds :
          (now : ℕ) (r : Request) (s : Server program)
          → starts_with r.path c.api_path_prefix ≡ false
          → program.mux.is_clean r.path ≡ true
          → Finds program c store key laws val s.mock.kv
          → Finds program c store key laws val (serve_request program c now r s).1.server.mock.kv
      serve_request-outside-Finds now r s here clean h =
          subst
            (λ (x : Writer × Session program).
              Finds program c store key laws val x.1.server.mock.kv)
            (sym (serve_request-outside program c literal now r s here clean))
            (mock_answer-Finds
              (matcher program.services program.engine c.api_path_prefix now s.tree r s.mock) s
              (subst (Finds program c store key laws val)
                (sym (
                  matcher-kv program.services program.engine c.api_path_prefix now s.tree r s.mock))
                h))

      -- A request outside the API, or one whose writes are for other keys.
      serve_request-elsewhere-Finds :
          (now : ℕ) (r : Request) (s : Server program)
          → program.mux.is_clean r.path ≡ true
          → ((vars : GoMap String)
              → ((r.method == "PUT") ≡ true) ⊎ ((r.method == "DELETE") ≡ true)
              → program.mux.path_match (key_path program c) r ≡ some vars
              → (path_var (record r { vars = vars }) "store" == store
                  && path_var (record r { vars = vars }) "key" == key)
                ≡ false)
          → Finds program c store key laws val s.mock.kv
          → Finds program c store key laws val (serve_request program c now r s).1.server.mock.kv
      serve_request-elsewhere-Finds now r s clean elsewhere h =
          elim (Bool-cases (starts_with r.path c.api_path_prefix)) [
            | inr here ↦ serve_request-outside-Finds now r s here clean h
            | inl under ↦
                subst
                  (λ (x : Writer × Session program).
                    Finds program c store key laws val x.1.server.mock.kv)
                  (sym (serve_request-clean program c now r s clean))
                  (dispatch-Finds r (server_routes program c now s.mock.world.heap) fresh _
                    (server_routes-Keeps program c store key laws val r under elsewhere now
                      s.mock.world.heap)
                    h)
          ]

      serve_request-clean-Finds :
          (now : ℕ) (r : Request) (s : Server program)
          → program.mux.is_clean r.path ≡ true
          → Spares program c store key r
          → Finds program c store key laws val s.mock.kv
          → Finds program c store key laws val (serve_request program c now r s).1.server.mock.kv
      serve_request-clean-Finds now r s clean (outside here) h =
          serve_request-outside-Finds now r s here clean h
      serve_request-clean-Finds now r s clean (no_write no_put no_delete) h =
          serve_request-elsewhere-Finds now r s clean
            (λ vars writes matched. absurd (elim writes [
              | inl is_put ↦ false≢true (sym no_put ∙ is_put)
              | inr is_delete ↦ false≢true (sym no_delete ∙ is_delete)
            ]))
            h
      serve_request-clean-Finds now r s clean (other_key elsewhere) h =
          serve_request-elsewhere-Finds now r s clean
            (λ vars writes matched. elsewhere vars matched) h
      serve_request-clean-Finds now r s clean (refused guarded stranger) h =
          subst (λ (x : Session program). Finds program c store key laws val x.server.mock.kv)
            (sym (serve_request-Refused program c r guarded stranger now s).0) h

      serve_request-Finds :
          (now : ℕ) (r : Request) (s : Server program)
          → Spares program c store key r
          → Finds program c store key laws val s.mock.kv
          → Finds program c store key laws val (serve_request program c now r s).1.server.mock.kv
      serve_request-Finds now r s spared h = elim (Bool-cases (program.mux.is_clean r.path)) [
        | inl clean ↦ serve_request-clean-Finds now r s clean spared h
        | inr unclean ↦
            subst
              (λ (x : Writer × Session program).
                Finds program c store key laws val x.1.server.mock.kv)
              (sym (serve_request-unclean program c now r s unclean)) h
      ]

      -- Requests that spare the key leave its value.
      pub serve_requests-Finds :
          (rs : List (ℕ × Request)) (s : Server program)
          → All (λ (at : ℕ × Request). Spares program c store key at.1) rs
          → Finds program c store key laws val s.mock.kv
          → Finds program c store key laws val (serve_requests program c rs s).mock.kv
      unfolding serve_requests
      serve_requests-Finds [] s spared h = h
      serve_requests-Finds ((now, r) ∷ rs) s (one, more) h =
          serve_requests-Finds rs (serve_request program c now r s).1.server more
            (serve_request-Finds now r s one h)

  -- A client PUTs a JSON text under a key of the key-value store of the server, or DELETEs the key, which sets it to
  -- null, with the right credentials or by a path that ends in "/health"; the answer is 204. Requests follow that are
  -- outside the prefix of the API, or no writes, or that mux matches with another key, or that have not the right
  -- credentials and are not for a path that ends in "/health"; no template changes the value of the key. Then a client
  -- GETs the key, with the right credentials or by a path that ends in "/health", and accepts JSON: the answer is 404
  -- if the value is null, and else the text of a JSON string or the encoding of the value. It is assumed that a
  -- write to the storage succeeds and a read finds the last value of its key, as the storage in memory does,
  -- and that mux matches the paths of the client, which are clean, with the template of the keys and with no
  -- route that stands before it, and a path template only with its literal prefix.
  pub serve_requests-Sets :
      (laws : StoresValues storage) (val : Value)
      → ((path : String) (r : Request) (vars : GoMap String)
          → program.mux.path_match (c.api_path_prefix <> path) r ≡ some vars
          → starts_with r.path c.api_path_prefix ≡ true)
      → ((t : T) (d : TemplateData) (kv : storage.State)
          → (storage.get store key (program.engine.execute t d kv).1).0
            ≡ (storage.get store key kv).0)
      → (s : Server program) (written_at read_at : ℕ) (change read : Request)
        (rs : List (ℕ × Request))
      → Addresses program c change store key
      → Sets program c change val
      → All (λ (at : ℕ × Request). Spares program c store key at.1) rs
      → Addresses program c read store key
      → Gets program c read
      → let changed = serve_request program c written_at change s in
        (changed.0 ≡ write_header 204 fresh)
        × ((serve_request program c read_at read (serve_requests program c rs changed.1.server)).0
            ≡ answer_value program.kv_json (ok val) fresh)
  serve_requests-Sets laws val literal harmless s written_at read_at change read rs to_change sets
        spared to_read gets =
      let changed =
        serve_request-Sets program c change laws store key to_change written_at s val sets in
      let put =
        subst
          (λ (x : Writer × Session program). Finds program c store key laws val x.1.server.mock.kv)
          (sym changed)
          (ground (
            arith,
            laws.get_after_put store key store key val s.mock.kv,
            eq_refl store,
            eq_refl key,
          )) in
      let after = (serve_request program c written_at change s).1.server in
      (
        ap (λ x. x.0) changed,
        ap (λ x. x.0)
              (serve_request-Gets program c read laws store key to_read read_at
                (serve_requests program c rs after) gets)
            ∙ ap (λ found. answer_value program.kv_json found fresh)
                (serve_requests-Finds laws val literal harmless rs after spared put),
      )
