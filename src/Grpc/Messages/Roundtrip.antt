-- ===== src/Grpc/Messages/Roundtrip.antt =====
-- The mappings of mockgo-grpc/matchstore/matchstore.go there and back.
use mathlib.Core.List.{append_assoc, append-nil}
use mockgo_server.Prelude.{
  ℕ, ◌<◌, ◌^◌, String, ◌==◌, ◌≡◌, refl, ap, ◌∙◌, sym, arith, false, List, [], ◌∷◌, ◌++◌, none, some,
  GoMap, lookup, insert, lookup-insert, lookup-nil, All,
}
use mockgo_server.Prelude.Int.{ℤ, pos, negsuc}
use mockgo_server.Matches.{Match, Mismatch, ActualRequest, ActualResponse}
use mockgo_server.Grpc.Messages.{
  HeaderValue, ProtoMatch, Timestamps, map_response, map_proto_response, signed32, int32, convert,
  map_header, map_proto_header, map_request, map_proto_request, map_match, map_proto_match,
  map_mismatch, map_proto_mismatch,
}

-- A number of 32 bits.
abbrev pub IsInt32 : ℤ → Type 0
IsInt32 (pos n) = n < 2 ^ 31
IsInt32 (negsuc n) = n < 2 ^ 31

int32_id : (z : ℤ) → IsInt32 z → int32 z ≡ z
unfolding int32 signed32
int32_id (pos n) h = ground arith
int32_id (negsuc n) h = ground arith

-- Every key has one entry, as in a Go map.
abbrev pub HasDistinctKeys : {V : Type 0} → GoMap V → Type 0
HasDistinctKeys [] = Unit
HasDistinctKeys ((k, v) ∷ m) = All (λ e. (k == e.0) ≡ false) m × HasDistinctKeys m

module _ {V W : Type 0} (f : V → W) where
  map_values : GoMap V → GoMap W
  map_values [] = []
  map_values ((k, v) ∷ m) = (k, f v) ∷ map_values m

  insert_missing :
      (k : String) (w : W) (m : GoMap W) → lookup k m ≡ none → insert k w m ≡ m ++ (k, w) ∷ []
  unfolding lookup insert
  insert_missing k w [] h = refl
  insert_missing k w ((j, x) ∷ m) h = ground (arith, insert_missing k w m)

  missing_behind :
      (k : String) (w : W) (res : GoMap W) (m : GoMap V)
      → All (λ e. (k == e.0) ≡ false) m
      → All (λ e. lookup e.0 res ≡ none) m
      → All (λ e. lookup e.0 (insert k w res) ≡ none) m
  missing_behind k w res [] h none' = tt
  missing_behind k w res (e ∷ m) h none' = (
    ground (arith, lookup-insert k e.0 w res, h.0, none'.0),
    missing_behind k w res m h.1 none'.1,
  )

  convert-map_values :
      (res : GoMap W) (m : GoMap V)
      → HasDistinctKeys m
      → All (λ e. lookup e.0 res ≡ none) m
      → convert f res m ≡ res ++ map_values m
  unfolding convert map_values
  convert-map_values res [] distinct missing = sym (append-nil res)
  convert-map_values res ((k, v) ∷ m) distinct missing =
      convert-map_values (insert k (f v) res) m distinct.1
        (missing_behind k (f v) res m distinct.0 missing.1)
      ∙ ap (λ x. x ++ map_values m) (insert_missing k (f v) res missing.0)
      ∙ append_assoc res ((k, f v) ∷ []) (map_values m)

  nothing_yet : (m : GoMap V) → All (λ e. lookup {V = W} e.0 [] ≡ none) m
  nothing_yet [] = tt
  nothing_yet (e ∷ m) = (lookup-nil e.0, nothing_yet m)

  convert_all : (m : GoMap V) → HasDistinctKeys m → convert f [] m ≡ map_values m
  convert_all m distinct = convert-map_values [] m distinct (nothing_yet m)

  map_values-keys :
      (k : String) (m : GoMap V)
      → All (λ e. (k == e.0) ≡ false) m
      → All (λ e. (k == e.0) ≡ false) (map_values m)
  unfolding map_values
  map_values-keys k [] h = tt
  map_values-keys k (e ∷ m) h = (h.0, map_values-keys k m h.1)

  map_values-HasDistinctKeys : (m : GoMap V) → HasDistinctKeys m → HasDistinctKeys (map_values m)
  unfolding map_values
  map_values-HasDistinctKeys [] h = tt
  map_values-HasDistinctKeys ((k, v) ∷ m) h =
      (map_values-keys k m h.0, map_values-HasDistinctKeys m h.1)

map_values_back :
    (m : GoMap (List String))
    → map_values (λ (value : HeaderValue). value.val) (map_values (λ val. record { val = val }) m)
      ≡ m
unfolding map_values
map_values_back [] = refl
map_values_back ((k, v) ∷ m) = ap (◌∷◌ (k, v)) (map_values_back m)

map_proto_header-map_header :
    (m : GoMap (List String)) → HasDistinctKeys m → map_proto_header (map_header m) ≡ m
unfolding map_proto_header map_header
map_proto_header-map_header m distinct =
    ap (convert (λ (value : HeaderValue). value.val) [])
      (convert_all (λ val. record { val = val }) m distinct)
    ∙ convert_all (λ (value : HeaderValue). value.val) (map_values (λ val. record { val = val }) m)
        (map_values-HasDistinctKeys (λ val. record { val = val }) m distinct)
    ∙ map_values_back m

-- The match has a response, with a status of 32 bits, and its headers have one entry for a key.
abbrev pub IsFinished : Match → Type 0
IsFinished m =
    HasDistinctKeys m.actual_request.header
    × ((response : ActualResponse) × (m.actual_response ≡ some response)
        × IsInt32 response.status_code
        × HasDistinctKeys response.header)

map_proto_response-map_response :
    (r : ActualResponse)
    → IsInt32 r.status_code
    → HasDistinctKeys r.header
    → map_proto_response (map_response r) ≡ r
unfolding map_proto_response map_response
map_proto_response-map_response r small distinct i = record {
  status_code = int32_id r.status_code small i;
  header = map_proto_header-map_header r.header distinct i;
}

module _ (times : Timestamps) (kept : (t : ℕ) → times.as_time (times.stamp t) ≡ t) where
  map_proto_request-map_request :
      (r : ActualRequest) → HasDistinctKeys r.header → map_proto_request (map_request r) ≡ r
  unfolding map_proto_request map_request
  map_proto_request-map_request r distinct =
      ap (λ h. record r { header = h }) (map_proto_header-map_header r.header distinct)

  message : Match → ActualResponse → ProtoMatch times.Stamp
  message m response = record {
    endpoint_id = m.endpoint_id;
    timestamp = times.stamp m.timestamp;
    actual_request = some (map_request m.actual_request);
    actual_response = some (map_response response);
  }

  -- A match that has its response arrives at the other end as it was, if its status is a number of 32
  -- bits, and if the package for times gives a time back as it was.
  pub map_proto_match-map_match :
      (m : Match)
      → IsFinished m
      → (sent : ProtoMatch times.Stamp) × (map_match times m ≡ some sent)
        × (map_proto_match times sent ≡ some m)
  unfolding map_match map_proto_match map_request map_proto_request message
  map_proto_match-map_match m (request_distinct, (response, responded, small, distinct)) =
      let answer = map_proto_response-map_response response small distinct in
      (
        message m response,
        rw (responded, map_match) refl,
        λ i. some (record {
          endpoint_id = m.endpoint_id;
          timestamp = kept m.timestamp i;
          actual_request = map_proto_request-map_request m.actual_request request_distinct i;
          actual_response = (ap some answer ∙ sym responded) i;
        }),
      )

  -- A mismatch arrives as it was.
  pub map_proto_mismatch-map_mismatch :
      (m : Mismatch)
      → HasDistinctKeys m.actual_request.header
      → map_proto_mismatch times (map_mismatch times m) ≡ some m
  unfolding map_mismatch map_proto_mismatch map_request map_proto_request
  map_proto_mismatch-map_mismatch m distinct i = some (record {
    mismatch_details = m.mismatch_details;
    timestamp = kept m.timestamp i;
    actual_request = map_proto_request-map_request m.actual_request distinct i;
  })
