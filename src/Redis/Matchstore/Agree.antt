-- ===== src/Redis/Matchstore/Agree.antt =====
-- mockgo-redis/matchstore/matchstore.go against mockgo/matches/inmemoryMatchstore.go.
use mockgo_server.Prelude.{ℕ, ◌<◌, String, ◌≡◌, sym, ◌∙◌, All, List}
use mockgo_server.Matches.{Match, Mismatch}
use mockgo_server.Matches.Inmemory.{new_inmemory, get_matches, get_mismatches}
use mockgo_server.Matches.Inmemory.Log.{
  Call, serve_calls, get_matches-serve_calls, get_mismatches-serve_calls,
}
use mockgo_server.Redis.{Client}
use mockgo_server.Redis.Matchstore.{RecordJson, redis_get_matches, redis_get_mismatches}
use mockgo_server.Redis.Matchstore.Capacity.{Lists, IsEmpty}
use mockgo_server.Redis.Matchstore.Calls.{IsName, IsFine, redis_calls}
use mockgo_server.Redis.Matchstore.Stored.{redis_get_matches-redis_calls}

-- After the same calls, with the records as they are at the calls, the store in Redis and the one in memory return
-- the same matches and the same mismatches, where the capacity is below 65535, the Redis server answers and held
-- nothing at first under any key but those of the counters, JSON gives the records back as they were, and no endpoint
-- has the key of a counter or of the mismatches as its ID.
pub redis_get_matches-get_matches :
    (client : Client) (l : Lists client) (json : RecordJson) (capacity : ℕ)
    (encode : Match → String) (encode_mismatch : Mismatch → String) (s : client.Server)
    (cs : List (Call Match Mismatch)) (id : String)
    → capacity < 65535
    → IsEmpty client l s
    → All (IsFine json encode encode_mismatch) cs
    → IsName id
    → ((redis_get_matches client json capacity id (redis_calls client json capacity s cs)).0
        ≡ (get_matches id (serve_calls (new_inmemory capacity) cs)).0)
      × ((redis_get_mismatches client json capacity (redis_calls client json capacity s cs)).0
          ≡ (get_mismatches (serve_calls (new_inmemory capacity) cs)).0)
redis_get_matches-get_matches client l json capacity encode encode_mismatch s cs id small empty fine
      name =
    let (found, missed) =
      redis_get_matches-redis_calls client l json capacity encode encode_mismatch s empty cs fine id
        name in
    (
      found ∙ sym (get_matches-serve_calls capacity small cs id).0,
      missed ∙ sym (get_mismatches-serve_calls capacity small cs).0,
    )
