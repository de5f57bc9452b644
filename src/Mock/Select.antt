-- ===== src/Mock/Select.antt =====
-- The choice of an endpoint in mockgo/mock/requestHandler.go: matchSearchNode,
-- matchEndPointsAttributes and what they call, with the record of each request in the match store.
pub mod Recorded
pub mod First
pub mod Path
mod Tests
use Prim.Native.String.{compare}
use text.Mathlib.Text.{is_lt}
use mockgo_server.Prelude.{
  ℕ, ◌-◌, String, ◌==◌, ◌<>◌, Bool, true, false, not, ◌&&◌, List, [], ◌∷◌, ◌++◌, Option, none, some,
  GoMap, lookup, insert, or_zero, all, length, take, drop, split, join, if◌then◌else◌, Result, ok,
  err,
}
use mockgo_server.Http.{Request, Body, read_all, header_get, query_get, first_value}
use mockgo_server.Matches.{Match, Mismatch, ActualRequest, ActualResponse, Matchstore}
use mockgo_server.Mock.Model.{Endpoint, MatchRequest}
use mockgo_server.Mock.Tree.{Node, endpoints_of}
use mockgo_server.Mock.Search.{Walk, reached, missed, stopped, search_path}

-- What is used of package regexp, of the metrics of prometheus, and of the match store. The store is
-- handed pointers to matches, which are indices into `heap` below, and mismatches.
pub record Services (R : Type 0) : Type 1 where
  pub is_match : R → String → Bool
  pub Counters : Type 0
  pub count_match : String → Counters → Counters
  pub count_mismatch : Counters → Counters
  pub store : Matchstore ℕ Mismatch

-- fmt's `%v` of a map, which is sorted by its keys.
insert_sorted : String × String → GoMap String → GoMap String
insert_sorted (k, v) [] = (k, v) ∷ []
insert_sorted (k, v) ((j, w) ∷ m) =
    if is_lt (compare j k) then (j, w) ∷ insert_sorted (k, v) m else (k, v) ∷ (j, w) ∷ m

sorted : GoMap String → GoMap String
unfolding insert_sorted
sorted [] = []
sorted (e ∷ m) = insert_sorted e (sorted m)

entries : GoMap String → List String
entries [] = []
entries ((k, v) ∷ m) = (k <> ":" <> v) ∷ entries m

show_map : GoMap String → String
unfolding sorted entries join
show_map m = "map[" <> join (entries (sorted m)) " " <> "]"

-- What addMismatch is told of the node and the position: a nil node, with the details; a node and
-- math.MaxInt; a node and a position.
pub data Place : Type 0 where
  path_matched : String → Place
  whole_path : Place
  position : ℕ → Place

-- The details of a mismatch.
unfoldable pub mismatch_details : Place → String → String
unfolding split join
mismatch_details (path_matched details) path = "path '" <> path <> "' matched, but " <> details
mismatch_details whole_path path =
    "path '" <> path <> "' not matched, subpath which matched: '" <> path <> "'"
mismatch_details (position pos) path =
    "path '"
    <> path
    <> "' not matched, subpath which matched: '"
    <> join (take (pos - 1) (drop 1 (split path b'/'))) "/"
    <> "'"

abbrev pub actual_request : Request → ActualRequest
actual_request r = record { method = r.method; url = r.url; header = r.header; host = r.host }

-- `for k, v := range request.URL.Query() { queryParams[k] = v[0] }`, and the same for a header.
unfoldable pub first_values : GoMap (List String) → GoMap String
first_values [] = []
first_values ((k, vs) ∷ m) = insert k (first_value vs) (first_values m)

abbrev pub not_matched : String → String → String → String
not_matched id what wanted =
    ", endpointId '" <> id <> "' not matched because of wanted " <> what <> ": " <> wanted

-- What a request changes: the matches that were made, the match store, and the metrics.
pub record World {R : Type 0} (services : Services R) : Type 0 where
  pub heap : List Match
  pub stored : services.store.State
  pub counters : services.Counters

module _ {R : Type 0} where
  -- matchQueryParams
  unfoldable pub match_query_params : MatchRequest R → Request → Bool
  match_query_params wanted r = all (λ e. query_get r.query e.0 == e.1) wanted.query

  -- matchHeaderValues
  unfoldable pub match_header_values : MatchRequest R → Request → Bool
  match_header_values wanted r = all (λ e. header_get r.header e.0 == e.1) wanted.headers

module _ {R : Type 0} (services : Services R) where
  open services use {is_match, count_mismatch, store}

  pub match_read : R → Result String → Bool
  match_read re (ok s) = is_match re s
  match_read re (err e) = false

  -- matchBody; it reads the body, if there is an expression
  unfoldable pub match_body : MatchRequest R → Request → Bool × Request
  unfolding match_read read_all
  match_body wanted r = elim wanted.body_regexp [
    | none ↦ (true, r)
    | some re ↦ let (s, rest) = read_all r.body in (match_read re s, record r { body = rest })
  ]

  -- addMismatch
  unfoldable pub add_mismatch : ℕ → Place → Request → World services → World services
  unfolding mismatch_details
  add_mismatch now place r w =
      let m : Mismatch = record {
        mismatch_details = mismatch_details place r.path;
        timestamp = now;
        actual_request = actual_request r;
      } in
      record w { stored = (store.add_mismatch m w.stored).1; counters = count_mismatch w.counters }

-- The result of the choice: the endpoint and the pointer to its match, the request with what is left
-- of its body, and the state.
abbrev pub Choice : {R : Type 0} → Type 0 → Services R → Type 0
Choice {R} T services = Option (Endpoint R T × ℕ) × Request × World services

module _ {R T : Type 0} (services : Services R) where
  open services use {count_match, store}

  -- addMatch, at the time `now`; the errors of the store are dropped
  unfoldable pub add_match : ℕ → Endpoint R T → Request → World services → ℕ × World services
  add_match now e r w =
      let m : Match = record {
        endpoint_id = e.id;
        timestamp = now;
        actual_request = actual_request r;
        actual_response = none;
      } in
      let pointer = length w.heap in
      (
        pointer,
        record {
          heap = w.heap ++ m ∷ [];
          stored = (store.add_match e.id pointer w.stored).1;
          counters = count_match e.id w.counters;
        },
      )

  -- matchEndPointsAttributes, with the message so far
  unfoldable pub match_endpoints_attributes :
      ℕ → String → List (Endpoint R T) → Request → World services → Choice T services
  unfolding add_match add_mismatch match_query_params match_header_values match_body show_map
  match_endpoints_attributes now message [] r w =
      (none, r, add_mismatch services now (path_matched message) r w)
  match_endpoints_attributes now message (e ∷ es) r w =
      let (body_fits, r') = match_body services e.request r in
      elim (match_query_params e.request r) [
        | false ↦
            match_endpoints_attributes now
              (message <> not_matched e.id "query params" (show_map e.request.query)) es r w
        | true ↦ elim (match_header_values e.request r) [
          | false ↦
              match_endpoints_attributes now
                (message <> not_matched e.id "header" (show_map e.request.headers)) es r w
          | true ↦ elim body_fits [
            | false ↦
                match_endpoints_attributes now
                  (message <> not_matched e.id "body" ("'" <> e.request.body <> "'")) es r' w
            | true ↦ let (pointer, w') = add_match now e r' w in (some (e, pointer), r', w')
          ]
        ]
      ]

  -- The endpoints under the request's host and method, and those under its method alone.
  unfoldable pub candidates : Node (Endpoint R T) → Request → List (Endpoint R T)
  unfolding split
  candidates sn r =
      or_zero []
        (lookup ("+" <> r.method <> "-" <> first_value (split r.host b':')) (endpoints_of sn))
      ++ or_zero [] (lookup r.method (endpoints_of sn))

  -- matchSearchNode
  unfoldable pub match_search_node :
      ℕ → Node (Endpoint R T) → Request → World services → Choice T services
  unfolding match_endpoints_attributes candidates
  match_search_node now sn r w = elim (endpoints_of sn) [
    | [] ↦ (none, r, add_mismatch services now whole_path r w)
    | _ ↦ elim (candidates sn r) [
      | [] ↦ (
        none,
        r,
        add_mismatch services now
            (path_matched ("no endpoint found with method '" <> r.method <> "'")) r w,
      )
      | e ∷ es ↦ match_endpoints_attributes now "" (candidates sn r) r w
    ]
  ]

  choose : ℕ → Walk (Endpoint R T) → Request → World services → Choice T services × GoMap String
  unfolding match_search_node
  choose now (reached sn params) r w = (match_search_node now sn r w, params)
  choose now (missed sn pos params) r w =
      ((none, r, add_mismatch services now (position pos) r w), params)
  choose now stopped r w = ((none, r, w), [])

  -- matchRequestToEndpoint: the choice, the path parameters and the query parameters
  unfoldable pub match_request_to_endpoint :
      ℕ
      → Node (Endpoint R T)
      → Request
      → World services
      → Choice T services × GoMap String × GoMap String
  unfolding choose search_path first_values
  match_request_to_endpoint now tree r w =
      let (choice, params) = choose now (search_path tree r.path) r w in
      (choice, params, first_values r.query)
