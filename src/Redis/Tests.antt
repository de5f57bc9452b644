-- ===== src/Redis/Tests.antt =====
-- The theorems on mockgo-redis over a server of hashes, and over one whose keys hold values of several kinds.
use mockgo_server.Prelude.{All, String, ◌≡◌, refl, arith, List, [], ◌∷◌, none, ok}
use mockgo_server.Kvstore.{Value, num, get, inmemory_storage, new_inmemory_storage}
use mockgo_server.Kvstore.Handlers.{Json}
use mockgo_server.Matches.{Match, Mismatch}
use mockgo_server.Redis.Kvstore.{redis_storage, redis_get}
use mockgo_server.Kvstore.Written.{Written, put_all}
use mockgo_server.Redis.Kvstore.Agree.{redis_get-put_all}
use mockgo_server.Redis.Matchstore.{RecordJson, redis_get_matches, redis_get_mismatches}
use mockgo_server.Redis.Typed.{
  typed, typed_lists, typed_numbers, unused, unused-IsEmpty, unused-counters,
}
use mockgo_server.Redis.Matchstore.{mismatches_key, count_of}
use mockgo_server.Matches.Inmemory.{get_matches_count, get_mismatches_count}
use mockgo_server.Redis.Matchstore.Counted.{redis_count-get_matches_count}
use mockgo_server.Redis.Matchstore.Stored.{redis_get_matches-redis_calls}
use mockgo_server.Redis.Matchstore.Agree.{redis_get_matches-get_matches}
use mockgo_server.Redis.Matchstore.Calls.{IsName, IsFine, redis_calls}
use mockgo_server.Matches.Inmemory.{new_inmemory, get_matches, get_mismatches}
use mockgo_server.Matches.Inmemory.Log.{Call, matched, missed, matches_deleted, serve_calls}
use mockgo_server.Prelude.Text.{has_suffix}
use mockgo_server.Redis.Samples.{client, empty, server_hashes, empty-fields}

abbrev hit : String → Match
hit url = record {
  endpoint_id = "e";
  timestamp = 1;
  actual_request = record { method = "GET"; url = url; header = []; host = "localhost" };
  actual_response = none;
}

abbrev miss : String → Mismatch
miss details = record {
  mismatch_details = details;
  timestamp = 1;
  actual_request = record { method = "GET"; url = "/"; header = []; host = "localhost" };
}

-- The texts of matches and mismatches like these are their URLs and their details.
abbrev record_json : RecordJson
record_json = record {
  marshal_match = λ m. ok m.actual_request.url;
  unmarshal_match = λ text. ok (hit text);
  marshal_mismatch = λ n. ok n.mismatch_details;
  unmarshal_mismatch = λ text. ok (miss text);
}

abbrev url_of : Match → String
url_of m = m.actual_request.url

abbrev details_of : Mismatch → String
details_of n = n.mismatch_details

abbrev calls : List (Call Match Mismatch)
calls =
    matched "e" (hit "/old")
    ∷ matches_deleted "e"
    ∷ matched "e" (hit "/a")
    ∷ missed (miss "path")
    ∷ matched "e" (hit "/b")
    ∷ matched "f" (hit "/f")
    ∷ matched "e" (hit "/c")
    ∷ []

e-IsName : IsName "e"
unfolding has_suffix
e-IsName = (refl, refl)

f-IsName : IsName "f"
unfolding has_suffix
f-IsName = (refl, refl)

calls-IsFine : All (IsFine record_json url_of details_of) calls
calls-IsFine = (
  (e-IsName, refl, refl),
  (
    e-IsName,
    (
      (e-IsName, refl, refl),
      (
        (refl, refl),
        ((e-IsName, refl, refl), ((f-IsName, refl, refl), ((e-IsName, refl, refl), tt))),
      ),
    ),
  ),
)

redis_get_matches-redis_calls_example :
    ((redis_get_matches typed record_json 2 "e" (redis_calls typed record_json 2 unused calls)).0
      ≡ ok (hit "/b" ∷ hit "/c" ∷ []))
    × ((redis_get_mismatches typed record_json 2 (redis_calls typed record_json 2 unused calls)).0
        ≡ ok (miss "path" ∷ []))
redis_get_matches-redis_calls_example =
    redis_get_matches-redis_calls typed typed_lists record_json 2 url_of details_of unused
      (λ key plain. unused-IsEmpty key plain) calls calls-IsFine "e" e-IsName

redis_get_matches-get_matches_example :
    ((redis_get_matches typed record_json 2 "e" (redis_calls typed record_json 2 unused calls)).0
      ≡ (get_matches "e" (serve_calls (new_inmemory 2) calls)).0)
    × ((redis_get_mismatches typed record_json 2 (redis_calls typed record_json 2 unused calls)).0
        ≡ (get_mismatches (serve_calls (new_inmemory 2) calls)).0)
redis_get_matches-get_matches_example =
    redis_get_matches-get_matches typed typed_lists record_json 2 url_of details_of unused calls "e"
      (omega arith) (λ key plain. unused-IsEmpty key plain) calls-IsFine e-IsName

redis_count-get_matches_count_example :
    ((count_of typed 2 "e" (redis_calls typed record_json 2 unused calls)).0
      ≡ (get_matches_count "e" (serve_calls (new_inmemory 2) calls)).0)
    × ((count_of typed 2 mismatches_key (redis_calls typed record_json 2 unused calls)).0
        ≡ (get_mismatches_count (serve_calls (new_inmemory 2) calls)).0)
redis_count-get_matches_count_example =
    redis_count-get_matches_count typed typed_lists typed_numbers record_json 2 url_of details_of
      unused ((λ key plain. unused-IsEmpty key plain), (λ key. unused-counters key)) calls
      calls-IsFine (omega arith) "e" (omega arith) e-IsName

abbrev text_of : Value → String
text_of (num text) = text
text_of v = "null"

abbrev numbers : Json
numbers = record {
  unmarshal = λ text. ok (num text);
  marshal = λ v. ok (text_of v);
  marshal_map = λ m. ok "{}";
}

abbrev written : List Written
written =
    record { store = "s"; key = "k"; val = num "1" }
    ∷ record { store = "s"; key = "j"; val = num "3" }
    ∷ record { store = "s"; key = "k"; val = num "2" }
    ∷ []

redis_get-put_all_example :
    ((redis_get client numbers "s" "k" (put_all (redis_storage client numbers) written empty)).0
      ≡ ok (num "2"))
    × ((get "s" "k" (put_all inmemory_storage written new_inmemory_storage)).0 ≡ ok (num "2"))
redis_get-put_all_example =
    redis_get-put_all client server_hashes numbers text_of written empty "s" "k" empty-fields
      ((refl, refl), ((refl, refl), ((refl, refl), tt)))
