-- ===== src/Starter/Setup/Forgotten.antt =====
-- What a client of the API of mockgo/starter/starter.go is told of an endpoint whose matches were deleted.
use text.Mathlib.Text.{starts_with}
use mathlib.Core.Path.{subst}
use mockgo_server.Mock.Model.{Endpoint}
use mockgo_server.Mock.Tree.{Node}
use mockgo_server.Prelude.{
  true, false, ℕ, String, ◌<>◌, ◌≡◌, ◌∙◌, sym, ap, eq_refl, arith, ◌<◌, List, [], ◌∷◌, ◌++◌, some,
  GoMap, All, ok, map, length,
}
use mockgo_server.Http.{Request}
use mockgo_server.Http.Writer.{fresh, write_header}
use mockgo_server.Util.{other, write_entity}
use mockgo_server.Matches.{Mismatch}
use mockgo_server.Matches.Handlers.{answer, answer_done}
use mockgo_server.Matches.Inmemory.{new_inmemory, get_matches, delete_matches}
use mockgo_server.Matches.Inmemory.Capacity.{last}
use mockgo_server.Matches.Inmemory.Log.{
  Call, matches_deleted, Log, empty_log, record_call, record_calls, record_calls-append, serve_call,
  serve_calls, serve_calls-append, get_matches-serve_calls,
}
use mockgo_server.Mock.Load.Loaded.{IsLoaded}
use mockgo_server.Mock.Routes.Journal.{Journal, Journal-mono, pointers, calls, calls-matches}
use mockgo_server.Mock.Routes.Outcomes.{Outcome, unanswered}
use mockgo_server.Mock.Routes.Recorded.{ChosenOnce}
use mockgo_server.Starter.{BasicConfiguration}
use mockgo_server.Starter.Server.{Program, Server}
use mockgo_server.Starter.Routes.{serve_request, serve_requests}
use mockgo_server.Starter.Routes.Deleted.{deleted, DeletesMatches, serve_request-DeletesMatches}
use mockgo_server.Starter.Routes.Fetched.{FetchesMatches, serve_request-FetchesMatches}
use mockgo_server.Starter.Routes.Noted.{IsStray, outsiders, serve_requests-Journal}
use mockgo_server.Starter.Setup.Recorded.{with_inmemory, Serves, note_all-calls, ChosenOnce-Serves}

matches-deleted :
    (id : String) (g : Log ℕ Mismatch) → (record_call g (matches_deleted id)).matches id ≡ []
matches-deleted id g = ground (arith, eq_refl id)

-- The matches of an endpoint, after any calls, its deletion, and what a journal stands for.
get_matches-calls :
    (size n : ℕ) (cs : List (Call ℕ Mismatch)) (id : String) (os : List Outcome)
    → size < 65535
    → (get_matches id (
        serve_calls
          (serve_calls (new_inmemory size) (cs ++ matches_deleted id ∷ []))
          (calls n os))).0
      ≡ ok (last size (pointers id n os))
get_matches-calls size n cs id os small =
    let before : List (Call ℕ Mismatch) = cs ++ matches_deleted id ∷ [] in
    let g = record_calls empty_log before in
    ap (λ s. (get_matches id s).0)
      (sym (serve_calls-append (new_inmemory size) before (calls n os)))
    ∙ (get_matches-serve_calls size small (before ++ calls n os) id).0
    ∙ ap (λ (g : Log ℕ Mismatch). ok (last size (g.matches id)))
        (record_calls-append empty_log before (calls n os))
    ∙ ap (λ l. ok (last size l)) (calls-matches os id n g)
    ∙ ap (λ l. ok (last size (l ++ pointers id n os)))
        (ap (λ (g : Log ℕ Mismatch). g.matches id)
            (record_calls-append empty_log cs (matches_deleted id ∷ []))
          ∙ matches-deleted id (record_calls empty_log cs))

module _ {R T : Type 0} (program : Program R T) (c : BasicConfiguration)
    (literal : (path : String) (r : Request) (vars : GoMap String)
      → program.mux.path_match (c.api_path_prefix <> path) r ≡ some vars
      → starts_with r.path c.api_path_prefix ≡ true) where
  -- After stray requests to a server whose store has just lost the matches of the endpoint.
  Reports :
      ℕ
      → String
      → ℕ
      → List (ℕ × Request)
      → ℕ
      → Request
      → Node (Endpoint R T)
      → Server (with_inmemory program)
      → Type 0
  Reports size id n rs now r tree s =
      let s' = serve_requests (with_inmemory program) c rs s in
      (os : List Outcome) × Journal (Serves program tree)
        (outsiders program.mux c.api_path_prefix rs) os
      × ((serve_request (with_inmemory program) c now r s').0
          ≡ write_entity
              (other (
                (program.match_json s'.mock.world.heap).marshal_matches
                  (last size (pointers id n os))))
              fresh)

  serve_requests-Reports :
      (size : ℕ) (cs : List (Call ℕ Mismatch)) (s : Server (with_inmemory program)) (id : String)
      (now : ℕ) (r : Request) (rs : List (ℕ × Request))
      → size < 65535
      → s.mock.world.stored ≡ serve_calls (new_inmemory size) (cs ++ matches_deleted id ∷ [])
      → IsLoaded s.tree
      → All (IsStray c) rs
      → FetchesMatches (with_inmemory program) c r id
      → Reports size id (length (map unanswered s.mock.world.heap)) rs now r s.tree s
  unfolding answer Reports
  serve_requests-Reports size cs s id now r rs small held loaded stray fetches =
      let p = with_inmemory program in
      let s' = serve_requests p c rs s in
      let n = length (map unanswered s.mock.world.heap) in
      let marshal = (program.match_json s'.mock.world.heap).marshal_matches in
      let (os, journal, put) = serve_requests-Journal p c literal rs s stray in
      let noted =
        put
        ∙ note_all-calls program os (map unanswered s.mock.world.heap) s.mock.world.stored
            s.mock.world.counters in
      let stored = ap (λ x. x.1) noted ∙ ap (λ st. serve_calls st (calls n os)) held in
      (
        os,
        Journal-mono (ChosenOnce p.services p.engine s.tree) (Serves program s.tree)
            (λ r choice h. ChosenOnce-Serves program s.tree r choice loaded h)
            (outsiders program.mux c.api_path_prefix rs) os journal,
        ap (λ x. x.0) (serve_request-FetchesMatches p c r id now s' fetches)
            ∙ ap (λ st. answer marshal (get_matches id st).0 fresh) stored
            ∙ ap (λ found. answer marshal found fresh) (get_matches-calls size n cs id os small),
      )

  -- A client with the right credentials DELETEs the matches of an endpoint from a server with the in-memory match
  -- store, whose size is below 65535, after any calls of the store; the answer is 200. Requests outside the API
  -- follow, and requests to the API without the right credentials, not for a path that ends in "/health", and then
  -- the client GETs the matches of the endpoint and accepts JSON: the answer is the encoding of the last `size`
  -- matches of the endpoint among those of the requests with a clean path outside the API that followed, each of which
  -- was noted once and in order, as a match of the endpoint that matchRequestToEndpoint returns for it, the first of
  -- the tree for it that accepts its query parameters, headers and body, or as a mismatch where it returns nil; and
  -- of none before. Both paths of the client are clean, mux matches them with the route of the matches, that of the
  -- GET not with the health route, and a path template only with its literal prefix; the endpoints of the tree are as
  -- LoadFiles leaves them.
  pub serve_requests-DeletesMatches :
      (size : ℕ) (cs : List (Call ℕ Mismatch)) (s : Server (with_inmemory program)) (id : String)
      (deleted_at now : ℕ) (deletion r : Request) (rs : List (ℕ × Request))
      → size < 65535
      → s.mock.world.stored ≡ serve_calls (new_inmemory size) cs
      → IsLoaded s.tree
      → DeletesMatches (with_inmemory program) c deletion id
      → All (IsStray c) rs
      → FetchesMatches (with_inmemory program) c r id
      → let after_deletion = serve_request (with_inmemory program) c deleted_at deletion s in
        let s' = serve_requests (with_inmemory program) c rs after_deletion.1.server in
        let heap = s'.mock.world.heap in
        (after_deletion.0 ≡ write_header 200 fresh)
        × ((os : List Outcome) × Journal
              (Serves program s.tree)
              (outsiders program.mux c.api_path_prefix rs)
              os
            × ((serve_request (with_inmemory program) c now r s').0
                ≡ write_entity
                    (other (
                      (program.match_json heap).marshal_matches
                        (last size (pointers id (length (map unanswered s.mock.world.heap)) os))))
                    fresh))
  unfolding answer_done delete_matches serve_calls serve_call Reports
  serve_requests-DeletesMatches size cs s id deleted_at now deletion r rs small held loaded deletes
        stray fetches =
      let p = with_inmemory program in
      let answered = serve_request-DeletesMatches p c deletion id deleted_at s deletes in
      let n = length (map unanswered s.mock.world.heap) in
      let s1 = (deleted p c deletion id (record { server = s; aborted = false })).1.server in
      let stored =
        ap (λ st. serve_call st (matches_deleted id)) held
        ∙ sym (serve_calls-append (new_inmemory size) cs (matches_deleted id ∷ [])) in
      (
        ap (λ x. x.0) answered,
        subst (λ x. Reports size id n rs now r s.tree x.1.server) (sym answered)
            (serve_requests-Reports size cs s1 id now r rs small stored loaded stray fetches),
      )
