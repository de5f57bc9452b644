-- ===== src/Mock/Routes/Tests.antt =====
-- The mock route of mockgo/mock/requestHandler.go for two requests.
use mockgo_server.Mock.Routes.Overlapping.{
  Event, matching, handling, run_events, run_events-Journal,
}
use mockgo_server.Mock.Routes.Journal.{Journal}
use mockgo_server.Mock.Routes.Outcomes.{Outcome}
use mockgo_server.Mock.Routes.Recorded.{ChosenOnce, seen, note_all}
use mockgo_server.Matches.Inmemory.{new_inmemory}
use mockgo_server.Prelude.{List, ◌∷◌, lookup, insert, ◌≡◌, refl, none, some, []}
use mockgo_server.Http.{Request, query_get}
use mockgo_server.Http.Writer.{fresh}
use mockgo_server.Mock.Register.{with_method, register_endpoint}
use mockgo_server.Mock.Tree.{find_child, set_child}
use mockgo_server.Mock.Search.{round}
use mockgo_server.Mock.Select.{match_request_to_endpoint}
use mockgo_server.Mock.Routes.{State, matcher, handler}
use mockgo_server.Mock.Routes.Interleaved.{chosen, after, served, handler-matcher-matcher}
use mockgo_server.Mock.Samples.{services, engine, start, greeting, ask, tree}

abbrev idle : State services engine
idle = record {
  shared = record { choice = none; path_params = []; query_params = [] };
  world = start;
  kv = 0;
}

abbrev lost : Request
lost = record ask { url = "/lost"; path = "/lost" }

chosen_first : chosen services engine "/__" 42 tree ask idle ≡ some (with_method greeting, 0)
unfolding match_request_to_endpoint register_endpoint round set_child find_child insert lookup
    query_get
chosen_first = refl

chosen_second :
    chosen services engine "/__" 42 tree ask (after services engine "/__" 42 tree lost idle)
    ≡ some (with_method greeting, 0)
unfolding match_request_to_endpoint register_endpoint round set_child find_child insert lookup
    query_get matcher
chosen_second = refl

handler-matcher-matcher_example :
    let s = after services engine "/__" 42 tree lost idle in
    let found = match_request_to_endpoint services 42 tree ask s.world in
    let rest = (matcher services engine "/__" 42 tree lost idle).1 in
    handler services engine rest fresh (after services engine "/__" 42 tree ask s)
    ≡ served services engine "/__" 42 tree rest fresh
        (with_method greeting)
        0
        found.1
        found.2
        (after services engine "/__" 42 tree ask s)
handler-matcher-matcher_example =
    handler-matcher-matcher services engine "/__" 42 tree lost ask fresh idle (with_method greeting)
      0 refl chosen_second

-- The handler of the first request runs after the matcher of the second one.
abbrev overlap : List Event
overlap = matching 42 ask ∷ matching 43 lost ∷ handling lost fresh ∷ handling ask fresh ∷ []

run_events-Journal_example :
    (os : List Outcome) × Journal (ChosenOnce services engine tree) ((42, ask) ∷ (43, lost) ∷ []) os
    × (seen services engine (run_events services engine "/__" tree idle overlap).world
        ≡ note_all services engine os ([], new_inmemory 10, (0, 0)))
run_events-Journal_example = run_events-Journal services engine "/__" tree overlap idle
