-- ===== src/Starter/Setup/Tests.antt =====
-- A start of mockgo/starter/starter.go with one mock file, a reload, and a request to an endpoint of the file.
use mockgo_server.Matches.Inmemory.Capacity.{last}
use mockgo_server.Matches.Inmemory.{get_matches, get_mismatches}
use mockgo_server.Starter.Setup.Recorded.{count_all, setup_router-Journal, Serves}
use mockgo_server.Mock.Routes.Journal.{misses, pointers, hits, Journal}
use mockgo_server.Mock.Routes.Outcomes.{unanswered, Outcome}
use mockgo_server.Starter.Routes.Noted.{outsiders}
use mockgo_server.Starter.Setup.Reported.{setup_router-FetchesMatches}
use mockgo_server.Starter.Routes.Fetched.{FetchesMatches}
use mockgo_server.Http.Writer.{write_header, fresh}
use mockgo_server.Starter.Setup.Forgotten.{serve_requests-DeletesMatches}
use mockgo_server.Starter.Routes.Deleted.{DeletesMatches}
use mockgo_server.Matches.Inmemory.Log.{serve_calls}
use mockgo_server.Prelude.{
  codes, inl, inr, none≢some, arith, ok, map, ℕ, String, ◌≡◌, refl, List, [], ◌∷◌, some, insert,
  lookup,
}
use mockgo_server.Http.{header_get, Request}
use mockgo_server.Mock.Model.{Endpoint}
use mockgo_server.Mock.Tree.{empty_node, set_child, find_child}
use mockgo_server.Mock.Load.{load_files, handle_reload}
use mockgo_server.Mock.Register.{register_endpoint}
use mockgo_server.Mock.Routes.{matcher}
use mockgo_server.Util.{other, write_entity, is_protected, basic_auth_middleware}
use mockgo_server.Prelude.Decimal.{itoa}
use mockgo_server.Mock.Load.Loaded.{HasTemplates}
use mockgo_server.Mock.Register.Content.{path_keys}
use mockgo_server.Mock.Samples.{services, start, disk, hello}
use mockgo_server.Mock.Search.{round, path_segments}
use mockgo_server.Mock.Search.Fitting.{Fits, until_empty}
use mockgo_server.Mock.Select.{World, match_request_to_endpoint}
use mockgo_server.Mock.Select.First.{Selected}
use mockgo_server.Mock.Served.{Answers}
use mockgo_server.Starter.{info}
use mockgo_server.Starter.Samples.{prefix_literal, program, config, idle, ask}
use mockgo_server.Starter.Server.{Server}
use mockgo_server.Starter.Routes.{serve_request, mock_config, serve_requests}
use mockgo_server.Starter.Setup.{serving, setup_router}
use mockgo_server.Starter.Setup.Served.{setup_router-IsLoaded, setup_router-serve_requests}

abbrev started : Server program
started = record { tree = (load_files disk (mock_config program config) empty_node).1; mock = idle }

setup_demo : setup_router program config idle ≡ serving started
unfolding setup_router load_files info
setup_demo = refl

-- The second endpoint of the file, as it is registered.
abbrev second : Endpoint String String
second = record hello {
  id = "2";
  mock = some "a-mock.yaml";
  request = record hello.request { method = "GET" };
  response = record hello.response {
    status_code = "200";
    template = some (record { body = "hello"; status = "200"; header = "" });
  };
}

abbrev reloads : List (ℕ × Request)
reloads = (41, record (ask "POST" "/__/reload") { basic_auth = some ("mockgo", "secret") }) ∷ []

chosen :
    (match_request_to_endpoint services 42
      (serve_requests program config reloads started).tree
      (ask "GET" "/hello")
      start).0.0
    ≡ some (second, 0)
unfolding match_request_to_endpoint round serve_requests matcher basic_auth_middleware handle_reload
    register_endpoint set_child find_child insert lookup itoa
chosen = refl

setup_router-serve_requests_example :
    HasTemplates second
    × Fits (path_keys second) (until_empty (path_segments "/hello"))
    × Answers (ask "GET" "/hello") second
    × Selected services
        (serve_requests program config reloads started).tree
        (ask "GET" "/hello")
        second
setup_router-serve_requests_example =
    setup_router-serve_requests program config idle started reloads 42 (ask "GET" "/hello") start
      second 0 setup_demo chosen

abbrev visits : List (ℕ × Request)
visits =
    (42, ask "GET" "/hello") ∷ (43, ask "DELETE" "/__/mismatches") ∷ (44, ask "GET" "/unknown") ∷ []

abbrev visited : World services
visited = (serve_requests program config visits started).mock.world

setup_router-Journal_example :
    (os : List Outcome) × Journal
      (Serves program started.tree)
      (outsiders program.mux "/__" visits)
      os
    × (map unanswered visited.heap ≡ hits os)
    × ((id : String) → (get_matches id visited.stored).0 ≡ ok (last 10 (pointers id 0 os)))
    × ((get_mismatches visited.stored).0 ≡ ok (last 10 (misses os)))
    × (visited.counters ≡ count_all program os (0, 0))
unfolding is_protected
setup_router-Journal_example =
    setup_router-Journal program config prefix_literal 10 idle started visits (omega arith)
      setup_demo refl refl (inl refl, (inr (refl, none≢some ("mockgo", "secret")), (inl refl, tt)))

abbrev client : Request
client = record (ask "GET" "/__/matches/2") {
  header = ("Accept", "application/json" ∷ []) ∷ [];
  basic_auth = some ("mockgo", "secret");
}

client-FetchesMatches : FetchesMatches program config client "2"
unfolding header_get codes
client-FetchesMatches = record {
  clean = refl;
  under = refl;
  gets = refl;
  authorized = refl;
  accepts_json = refl;
  no_health = refl;
  matched = refl;
  named = refl;
}

setup_router-FetchesMatches_example :
    (os : List Outcome) × Journal
      (Serves program started.tree)
      (outsiders program.mux "/__" visits)
      os
    × (map unanswered visited.heap ≡ hits os)
    × ((serve_request program config 45 client (serve_requests program config visits started)).0
        ≡ write_entity
            (other
              ((program.match_json visited.heap).marshal_matches (last 10 (pointers "2" 0 os))))
            fresh)
unfolding is_protected
setup_router-FetchesMatches_example =
    setup_router-FetchesMatches program config prefix_literal 10 idle started visits "2" 45 client
      (omega arith) setup_demo refl refl
      (inl refl, (inr (refl, none≢some ("mockgo", "secret")), (inl refl, tt))) client-FetchesMatches

abbrev deletion : Request
deletion = record client { method = "DELETE" }

deletion-DeletesMatches : DeletesMatches program config deletion "2"
deletion-DeletesMatches = record {
  clean = refl;
  under = refl;
  deletes = refl;
  authorized = refl;
  matched = refl;
  named = refl;
}

-- The server after the deletion, and after the visits.
abbrev cleared : Server program
cleared = (serve_request program config 45 deletion started).1.server

abbrev revisited : Server program
revisited = serve_requests program config visits cleared

serve_requests-DeletesMatches_example :
    ((serve_request program config 45 deletion started).0 ≡ write_header 200 fresh)
    × ((os : List Outcome) × Journal
          (Serves program started.tree)
          (outsiders program.mux "/__" visits)
          os
        × ((serve_request program config 46 client revisited).0
            ≡ write_entity
                (other (
                  (program.match_json revisited.mock.world.heap).marshal_matches
                    (last 10 (pointers "2" 0 os))))
                fresh))
unfolding is_protected serve_calls
serve_requests-DeletesMatches_example =
    serve_requests-DeletesMatches program config prefix_literal 10 [] started "2" 45 46 deletion
      client visits (omega arith) refl
      (setup_router-IsLoaded program config idle started setup_demo) deletion-DeletesMatches
      (inl refl, (inr (refl, none≢some ("mockgo", "secret")), (inl refl, tt))) client-FetchesMatches
