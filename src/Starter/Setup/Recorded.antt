-- ===== src/Starter/Setup/Recorded.antt =====
-- What the in-memory match store holds after requests to a server that SetupRouter of
-- mockgo/starter/starter.go started: from the mock files to GetMatches and GetMismatches.
use text.Mathlib.Text.{starts_with}
use mathlib.Core.List.{append_assoc, append-nil}
use mockgo_server.Prelude.{
  true, ℕ, String, ◌<>◌, ◌≡◌, ◌∙◌, ap, sym, arith, ◌<◌, List, [], ◌∷◌, ◌++◌, some, none, Option,
  GoMap, All, ok, map, length, length-append,
}
use mockgo_server.Http.{Request}
use mockgo_server.Matches.{Match, Mismatch}
use mockgo_server.Matches.Inmemory.{
  Inmemory, inmemory_matchstore, new_inmemory, get_matches, get_mismatches, add_match,
}
use mockgo_server.Matches.Inmemory.Capacity.{last}
use mockgo_server.Matches.Inmemory.Log.{
  serve_calls, serve_call, get_matches-serve_calls, get_mismatches-serve_calls, empty_log,
}
use mockgo_server.Mock.Model.{Endpoint}
use mockgo_server.Mock.Load.Loaded.{HasTemplates, IsLoaded}
use mockgo_server.Mock.Register.Content.{path_keys}
use mockgo_server.Mock.Search.{path_segments}
use mockgo_server.Mock.Search.Fitting.{Fits, until_empty}
use mockgo_server.Mock.Tree.{Node}
use mockgo_server.Mock.Select.First.{Selected}
use mockgo_server.Mock.Served.{Answers, match_request_to_endpoint-IsLoaded}
use mockgo_server.Mock.Routes.{State}
use mockgo_server.Mock.Routes.Outcomes.{Outcome, hit, miss, unanswered}
use mockgo_server.Mock.Routes.Recorded.{note_all, ChosenOnce}
use mockgo_server.Starter.{BasicConfiguration}
use mockgo_server.Starter.Server.{Program, Server}
use mockgo_server.Starter.Routes.{serve_requests}
use mockgo_server.Mock.Routes.Journal.{
  Journal, Journal-mono, hits, misses, pointers, calls, calls-matches, calls-mismatches,
}
use mockgo_server.Starter.Routes.Noted.{IsStray, outsiders, serve_requests-Journal}
use mockgo_server.Starter.Setup.{serving, setup_router}
use mockgo_server.Starter.Setup.Served.{setup_router-IsLoaded}

-- The program with the in-memory match store.
abbrev pub with_inmemory : {R T : Type 0} → Program R T → Program R T
with_inmemory program = record program {
  services = record program.services { store = inmemory_matchstore ℕ Mismatch };
}

module _ {R T : Type 0} (program : Program R T) where
  open program use {services}

  -- The metrics after outcomes.
  abbrev pub count_all : List Outcome → services.Counters → services.Counters
  count_all [] counters = counters
  count_all (hit m ∷ os) counters = count_all os (services.count_match m.endpoint_id counters)
  count_all (miss n ∷ os) counters = count_all os (services.count_mismatch counters)

  pub note_all-calls :
      (os : List Outcome) (heap : List Match) (stored : Inmemory ℕ Mismatch)
      (counters : services.Counters)
      → note_all
          (with_inmemory program).services
          (with_inmemory program).engine
          os
          (heap, stored, counters)
        ≡ (heap ++ hits os, serve_calls stored (calls (length heap) os), count_all os counters)
  unfolding serve_calls serve_call
  note_all-calls [] heap stored counters = ap (λ l. (l, stored, counters)) (sym (append-nil heap))
  note_all-calls (miss n ∷ os) heap stored counters = note_all-calls os heap _ _
  note_all-calls (hit m ∷ os) heap stored counters =
      note_all-calls os (heap ++ m ∷ []) _ (services.count_match m.endpoint_id counters)
      ∙ (let added = (add_match m.endpoint_id (length heap) stored).1 in
          let counted = count_all (hit m ∷ os) counters in
          ap (λ l. (l, serve_calls added (calls (length (heap ++ m ∷ [])) os), counted))
            (append_assoc heap (m ∷ []) (hits os))
          ∙ ap (λ n. (heap ++ m ∷ hits os, serve_calls added (calls n os), counted))
              (length-append heap (m ∷ []) ∙ omega arith))

  -- matchRequestToEndpoint returned the endpoint, it has its templates, its path and its key are for the request, and it
  -- is the first one of the tree for the request that accepts it; where there is none, matchRequestToEndpoint returned
  -- nil.
  abbrev pub Serves : Node (Endpoint R T) → Request → Option (Endpoint R T) → Type 0
  Serves tree r none =
      ChosenOnce (with_inmemory program).services (with_inmemory program).engine tree r none
  Serves tree r (some e) =
      ChosenOnce (with_inmemory program).services (with_inmemory program).engine tree r (some e)
      × HasTemplates e
      × Fits (path_keys e) (until_empty (path_segments r.path))
      × Answers r e
      × Selected (with_inmemory program).services tree r e

  pub ChosenOnce-Serves :
      (tree : Node (Endpoint R T)) (r : Request) (choice : Option (Endpoint R T))
      → IsLoaded tree
      → ChosenOnce (with_inmemory program).services (with_inmemory program).engine tree r choice
      → Serves tree r choice
  ChosenOnce-Serves tree r none loaded h = h
  ChosenOnce-Serves tree r (some e) loaded (now, (w, pointer, h)) =
      let (templates, fits, key, first) =
        match_request_to_endpoint-IsLoaded (with_inmemory program).services now tree r w e pointer
          loaded h in
      ((now, (w, pointer, h)), templates, fits, key, first)

module _ {R T : Type 0} (program : Program R T) (c : BasicConfiguration)
    (literal : (path : String) (r : Request) (vars : GoMap String)
      → program.mux.path_match (c.api_path_prefix <> path) r ≡ some vars
      → starts_with r.path c.api_path_prefix ≡ true) where
  -- A server that has started with an empty in-memory match store of a size below 65535 answers requests, of which
  -- those to the API are without the right credentials, and not for a path that ends in "/health". It notes each
  -- request outside the prefix of the API whose path is clean once, in order and whatever the templates do: as a
  -- match of the endpoint that matchRequestToEndpoint returns, which has its templates, is for the request's path,
  -- method and host, and is the first of the tree's endpoints for the request that accepts the query parameters, the
  -- headers and the body; or as a mismatch where matchRequestToEndpoint returns nil; both with the request and the
  -- time at which it came. The matches in the memory are those, but for their responses, and nothing of the other
  -- requests; GetMatches returns the pointers to the last `size` ones of an endpoint, GetMismatches the last `size`
  -- mismatches; the metrics count each outcome. mux matches a path template only with its literal prefix.
  pub setup_router-Journal :
      (size : ℕ) (mock : State (with_inmemory program).services (with_inmemory program).engine)
      (s : Server (with_inmemory program)) (rs : List (ℕ × Request))
      → size < 65535
      → setup_router (with_inmemory program) c mock ≡ serving s
      → s.mock.world.heap ≡ []
      → s.mock.world.stored ≡ new_inmemory size
      → All (IsStray c) rs
      → let world = (serve_requests (with_inmemory program) c rs s).mock.world in
        (os : List Outcome) × Journal
          (Serves program s.tree)
          (outsiders program.mux c.api_path_prefix rs)
          os
        × (map unanswered world.heap ≡ hits os)
        × ((id : String) → (get_matches id world.stored).0 ≡ ok (last size (pointers id 0 os)))
        × ((get_mismatches world.stored).0 ≡ ok (last size (misses os)))
        × (world.counters ≡ count_all program os s.mock.world.counters)
  setup_router-Journal size mock s rs small started empty new stray =
      let (os, journal, put) =
        serve_requests-Journal (with_inmemory program) c literal rs s stray in
      let all = calls 0 os in
      let loaded = setup_router-IsLoaded (with_inmemory program) c mock s started in
      let counted = count_all program os s.mock.world.counters in
      let noted =
        put
        ∙ note_all-calls program os (map unanswered s.mock.world.heap) s.mock.world.stored
            s.mock.world.counters
        ∙ ap
            (λ heap. (
              map unanswered heap ++ hits os,
              serve_calls s.mock.world.stored (calls (length (map unanswered heap)) os),
              counted,
            ))
            empty
        ∙ ap (λ stored. (hits os, serve_calls stored all, counted)) new in
      (
        os,
        Journal-mono
            (ChosenOnce (with_inmemory program).services (with_inmemory program).engine s.tree)
            (Serves program s.tree)
            (λ r choice h. ChosenOnce-Serves program s.tree r choice loaded h)
            (outsiders program.mux c.api_path_prefix rs) os journal,
        ap (λ x. x.0) noted,
        (λ id.
            ap (λ x. (get_matches id x.1).0) noted
            ∙ (get_matches-serve_calls size small all id).0
            ∙ ap (λ l. ok (last size l)) (calls-matches os id 0 empty_log)),
        ap (λ x. (get_mismatches x.1).0) noted
            ∙ (get_mismatches-serve_calls size small all).0
            ∙ ap (λ l. ok (last size l)) (calls-mismatches os 0 empty_log),
        ap (λ x. x.2) noted,
      )
