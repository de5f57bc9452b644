-- ===== src/Grpc/Matchstore/Tests.antt =====
-- A cluster of servers for mockgo-grpc/matchstore/matchstore.go, whose calls always arrive.
use mathlib.Core.List.{Perm}
use mockgo_server.Prelude.{
  get_or, ℕ, ◌≡◌, refl, ap, arith, List, [], ◌∷◌, none, some, Result, ok, err, eqb, if◌then◌else◌,
  insert, lookup,
}
use mockgo_server.Prelude.Int.{pos}
use mockgo_server.Matches.{Match, Mismatch, Matchstore, ActualResponse}
use mockgo_server.Matches.Inmemory.{
  Inmemory, inmemory_matchstore, new_inmemory, add_match, push_bounded, get_matches,
  get_matches_count, copy,
}
use mockgo_server.Grpc.Attempt.{Attempt, returned, failed, crashed}
use mockgo_server.Grpc.Messages.{Timestamps, ProtoMatch, map_match, map_proto_match}
use mockgo_server.Grpc.Messages.Roundtrip.{IsFinished, map_proto_match-map_match}
use mockgo_server.Grpc.Matchstore.{
  MatchPeers, handle_fetch_matches, handle_fetch_matches_count, handle_fetch_mismatches,
  handle_fetch_mismatches_count, handle_remove_matches, handle_remove_mismatches,
  cluster_get_matches, cluster_get_matches_count, cluster_delete_matches,
}
use mockgo_server.Mock.Samples.{services, start, greeting, ask, tree}
use mockgo_server.Mock.Select.{match_request_to_endpoint}
use mockgo_server.Mock.Register.{register_endpoint, with_method}
use mockgo_server.Mock.Search.{round}
use mockgo_server.Mock.Tree.{set_child, find_child}
use mockgo_server.Http.{query_get}
use mockgo_server.Grpc.Matchstore.Pending.{handle_fetch_matches-match_request_to_endpoint}
use mockgo_server.Grpc.Matchstore.Fetched.{Answers, cluster_get_matches_complete}
use mockgo_server.Grpc.Matchstore.Counted.{cluster_get_matches_count-sum}
use mockgo_server.Grpc.Matchstore.Deleted.{cluster_get_matches-cluster_delete_matches}

abbrev times : Timestamps
times = record { Stamp = ℕ; stamp = λ t. t; as_time = λ t. t }

abbrev pending : Match
pending = record {
  endpoint_id = "e";
  timestamp = 42;
  actual_request = record {
    method = "GET";
    url = "/hello";
    header = ("Accept", "text/plain" ∷ []) ∷ ("Host", []) ∷ [];
    host = "localhost";
  };
  actual_response = none;
}

abbrev answer : ActualResponse
answer = record { status_code = pos 204; header = [] }

abbrev finished : Match
finished = record pending { actual_response = some answer }

finished-IsFinished : IsFinished finished
finished-IsFinished = (((refl, tt), (tt, tt)), (answer, refl, omega arith, tt))

abbrev store : Matchstore ℕ Mismatch
store = inmemory_matchstore ℕ Mismatch

-- A call of a server that crashes fails.
abbrev result_of : {A : Type 0} → Attempt A → Result A
result_of (returned a) = ok a
result_of (failed e) = err e
result_of crashed = err "transport is closing"

abbrev States : Type 0
States = ℕ → Inmemory ℕ Mismatch

abbrev change : ℕ → Inmemory ℕ Mismatch → States → States
change i own s j = if eqb i j then own else s j

abbrev peers : MatchPeers times
peers = record {
  Cluster = States;
  fetch_matches = λ i id s. result_of (handle_fetch_matches times store (λ p. finished) id (s i)).0;
  fetch_matches_count = λ i id s. result_of (handle_fetch_matches_count times store id (s i)).0;
  fetch_mismatches = λ i s. result_of (handle_fetch_mismatches times store (s i)).0;
  fetch_mismatches_count = λ i s. result_of (handle_fetch_mismatches_count times store (s i)).0;
  remove_matches = λ i id s. (ok tt, change i (handle_remove_matches times store id (s i)).1 s);
  remove_mismatches = λ i s. (ok tt, change i (handle_remove_mismatches times store (s i)).1 s);
}

abbrev answers : Answers times peers store
answers = record {
  states = λ s. s;
  read = λ i p. finished;
  answered = λ i id s ms h. ap result_of h;
  counted = λ i id s n h. ap result_of h;
  removed = λ i j id s done. refl;
}

-- Every server has recorded one match.
abbrev recorded : States
recorded i = (add_match "e" i (new_inmemory 10)).1

recorded_matches : (i : ℕ) → (get_matches "e" (recorded i)).0 ≡ ok (i ∷ [])
unfolding get_matches add_match new_inmemory push_bounded copy insert lookup
recorded_matches i = refl

map_proto_match-map_match_example :
    (sent : ProtoMatch ℕ) × (map_match times finished ≡ some sent)
    × (map_proto_match times sent ≡ some finished)
map_proto_match-map_match_example =
    map_proto_match-map_match times (λ t. refl) finished finished-IsFinished

cluster_get_matches_complete_example :
    (found : List Match) × (cluster_get_matches times peers (0 ∷ 1 ∷ []) "e" recorded
      ≡ returned found)
    × Perm found (finished ∷ finished ∷ [])
cluster_get_matches_complete_example =
    cluster_get_matches_complete times (λ t. refl) peers store answers "e" recorded (λ i. i ∷ [])
      (0 ∷ 1 ∷ [])
      (
        (recorded_matches 0, (finished-IsFinished, tt)),
        ((recorded_matches 1, (finished-IsFinished, tt)), tt),
      )

cluster_get_matches_count-sum_example :
    cluster_get_matches_count times peers (0 ∷ 1 ∷ []) "e" recorded ≡ ok 2
unfolding get_matches_count add_match new_inmemory insert lookup
cluster_get_matches_count-sum_example =
    cluster_get_matches_count-sum times peers store answers "e" recorded (λ i. 1) (0 ∷ 1 ∷ [])
      (refl, (refl, tt))

cluster_get_matches-cluster_delete_matches_example :
    (cluster_get_matches times peers
        (0 ∷ 1 ∷ [])
        "e"
        (cluster_delete_matches times peers (0 ∷ 1 ∷ []) "e" recorded).1
      ≡ returned [])
    × (cluster_get_matches_count times peers
          (0 ∷ 1 ∷ [])
          "e"
          (cluster_delete_matches times peers (0 ∷ 1 ∷ []) "e" recorded).1
        ≡ ok 0)
unfolding cluster_delete_matches
cluster_get_matches-cluster_delete_matches_example =
    cluster_get_matches-cluster_delete_matches times (λ t. refl) peers answers "e" (0 ∷ 1 ∷ [])
      recorded refl

chosen : (match_request_to_endpoint services 42 tree ask start).0.0 ≡ some (with_method greeting, 0)
unfolding match_request_to_endpoint register_endpoint round set_child find_child insert lookup
    query_get
chosen = refl

handle_fetch_matches-match_request_to_endpoint_example :
    (handle_fetch_matches times store
      (λ p. get_or (match_request_to_endpoint services 42 tree ask start).0.2.heap p pending)
      "greeting"
      (match_request_to_endpoint services 42 tree ask start).0.2.stored).0
    ≡ crashed
unfolding new_inmemory
handle_fetch_matches-match_request_to_endpoint_example =
    handle_fetch_matches-match_request_to_endpoint services times 42 tree ask start
      (with_method greeting) 0 pending chosen (omega arith)
