-- ===== src/Starter/Setup/Reported.antt =====
-- What a client of the API of mockgo/starter/starter.go is told of the requests outside the API, from the mock
-- files to the answer to a GET of the matches of an endpoint.
use text.Mathlib.Text.{starts_with}
use mockgo_server.Prelude.{
  true, ℕ, String, ◌<>◌, ◌≡◌, ◌∙◌, ap, ◌<◌, List, [], some, GoMap, All, map,
}
use mockgo_server.Http.{Request}
use mockgo_server.Http.Writer.{fresh}
use mockgo_server.Util.{other, write_entity}
use mockgo_server.Matches.Handlers.{answer}
use mockgo_server.Matches.Inmemory.{new_inmemory}
use mockgo_server.Matches.Inmemory.Capacity.{last}
use mockgo_server.Mock.Routes.{State}
use mockgo_server.Mock.Routes.Outcomes.{Outcome, unanswered}
use mockgo_server.Starter.{BasicConfiguration}
use mockgo_server.Starter.Server.{Program, Server}
use mockgo_server.Starter.Routes.{serve_request, serve_requests}
use mockgo_server.Starter.Routes.Fetched.{FetchesMatches, serve_request-FetchesMatches}
use mockgo_server.Mock.Routes.Journal.{Journal, hits, pointers}
use mockgo_server.Starter.Routes.Noted.{IsStray, outsiders}
use mockgo_server.Starter.Setup.{serving, setup_router}
use mockgo_server.Starter.Setup.Recorded.{with_inmemory, Serves, setup_router-Journal}

module _ {R T : Type 0} (program : Program R T) (c : BasicConfiguration)
    (literal : (path : String) (r : Request) (vars : GoMap String)
      → program.mux.path_match (c.api_path_prefix <> path) r ≡ some vars
      → starts_with r.path c.api_path_prefix ≡ true) where
  -- A server that has started with an empty in-memory match store of a size below 65535 answers requests, of which
  -- those to the API are without the right credentials, and not for a path that ends in "/health". A client with the
  -- right credentials then GETs the matches of an endpoint, by a path that mux matches with their route and not with
  -- the health route, and accepts JSON: the answer is the encoding of the last `size` matches of the endpoint among
  -- those of the requests with a clean path outside the API, each of which was noted once and in order, as a match of
  -- the endpoint that matchRequestToEndpoint returns for it, the first of the tree for it that accepts its query
  -- parameters, headers and body, or as a mismatch where it returns nil. The path of the client is clean, and mux
  -- matches a path template only with its literal prefix.
  pub setup_router-FetchesMatches :
      (size : ℕ) (mock : State (with_inmemory program).services (with_inmemory program).engine)
      (s : Server (with_inmemory program)) (rs : List (ℕ × Request)) (id : String) (now : ℕ)
      (r : Request)
      → size < 65535
      → setup_router (with_inmemory program) c mock ≡ serving s
      → s.mock.world.heap ≡ []
      → s.mock.world.stored ≡ new_inmemory size
      → All (IsStray c) rs
      → FetchesMatches (with_inmemory program) c r id
      → let s' = serve_requests (with_inmemory program) c rs s in
        let heap = s'.mock.world.heap in
        (os : List Outcome) × Journal
          (Serves program s.tree)
          (outsiders program.mux c.api_path_prefix rs)
          os
        × (map unanswered heap ≡ hits os)
        × ((serve_request (with_inmemory program) c now r s').0
            ≡ write_entity
                (other ((program.match_json heap).marshal_matches (last size (pointers id 0 os))))
                fresh)
  unfolding answer
  setup_router-FetchesMatches size mock s rs id now r small started empty new stray fetches =
      let s' = serve_requests (with_inmemory program) c rs s in
      let marshal = (program.match_json s'.mock.world.heap).marshal_matches in
      let (os, journal, heap, matches, mismatches, counted) =
        setup_router-Journal program c literal size mock s rs small started empty new stray in
      (
        os,
        journal,
        heap,
        ap (λ x. x.0) (serve_request-FetchesMatches (with_inmemory program) c r id now s' fetches)
            ∙ ap (λ found. answer marshal found fresh) (matches id),
      )
