-- ===== src/Redis/Matchstore/Counted.antt =====
-- GetMatchesCount and GetMismatchesCount of mockgo-redis/matchstore/matchstore.go against those of
-- mockgo/matches/inmemoryMatchstore.go.
use mockgo_server.Prelude.{
  true, ℕ, suc, ◌+◌, ◌<◌, ◌^◌, String, ◌≡◌, refl, ap, ◌∙◌, arith, eq_refl, All, List, [], ◌∷◌, none,
  or_zero, if◌then◌else◌, ok, err, length,
}
use mockgo_server.Matches.{Match, Mismatch}
use mockgo_server.Matches.Inmemory.{new_inmemory, get_matches_count, get_mismatches_count}
use mockgo_server.Matches.Inmemory.Log.{
  Call, matched, missed, matches_deleted, mismatches_deleted, Log, record_call, record_calls,
  empty_log, serve_calls, get_matches-serve_calls, get_mismatches-serve_calls,
}
use mockgo_server.Redis.{Client}
use mockgo_server.Redis.Matchstore.{
  mismatches_key, redis_add_mismatch, RecordJson, counter_key, redis_add_match, count_of,
}
use mockgo_server.Redis.Matchstore.Capacity.{Lists, IsEmpty}
use mockgo_server.Redis.Matchstore.Counters.{Numbers, or_missing, number-push, number-remove}
use mockgo_server.Redis.Matchstore.Stored.{Holds, redis_call-Holds, empty-Holds}
use mockgo_server.Redis.Matchstore.Kept.{length-kept}
use mockgo_server.Redis.Matchstore.Calls.{
  IsName, IsFine, redis_call, redis_calls, mismatches_key-has_suffix,
}
use mockgo_server.Redis.Matchstore.Tally.{
  touches, count_call, count_at, tally, recorded, tally-touches, tally-recorded, count_at-bound,
  tally-bound,
}

module _ (client : Client) (l : Lists client) (n : Numbers client l) (json : RecordJson)
    (capacity : ℕ) (encode : Match → String) (encode_mismatch : Mismatch → String) where
  -- All keys of counters hold a number or nothing.
  abbrev Counts : client.Server → Type 0
  Counts s = (key : String) → n.counts s (counter_key key) ≡ true

  -- A call does to the counter of a list as the tally does.
  number-redis_call :
      (s : client.Server) (g : Log Match Mismatch) (c : Call Match Mismatch) (key : String)
      → IsFine json encode encode_mismatch c
      → Holds client l json capacity encode encode_mismatch s g
      → Counts s
      → ((suc (or_zero 0 (n.number s (counter_key key))) < 2 ^ 63)
          → n.number (redis_call client json capacity s c) (counter_key key)
            ≡ count_at key c (n.number s (counter_key key)))
        × (n.counts (redis_call client json capacity s c) (counter_key key) ≡ true)
  unfolding count_call redis_add_match redis_add_mismatch
  number-redis_call s g (matched id m) key (name, same, _) h counts =
      rw (redis_call, same)
        (number-push client l n capacity id (encode m) key s name.0 (h.lists id name.0)
          (length-kept encode capacity (l.items s id) (g.matches id) (h.kept id name)) counts)
  number-redis_call s g (missed m) key (same, _) h counts =
      rw (redis_call, same)
        (number-push client l n capacity mismatches_key (encode_mismatch m) key s
          mismatches_key-has_suffix (h.lists mismatches_key mismatches_key-has_suffix)
          (length-kept encode_mismatch capacity (l.items s mismatches_key) g.mismatches
            h.kept_mismatches)
          counts)
  number-redis_call s g (matches_deleted id) key name h counts =
      let (zeroed, still) = number-remove client l n capacity id key s name.0 (counts key) in
      ((λ small. zeroed), still)
  number-redis_call s g mismatches_deleted key fine h counts =
      let (zeroed, still) =
        number-remove client l n capacity mismatches_key key s mismatches_key-has_suffix
          (counts key) in
      ((λ small. zeroed), still)

  number-redis_calls :
      (s : client.Server) (g : Log Match Mismatch) (cs : List (Call Match Mismatch)) (key : String)
      → All (IsFine json encode encode_mismatch) cs
      → Holds client l json capacity encode encode_mismatch s g
      → Counts s
      → or_zero 0 (n.number s (counter_key key)) + length cs < 2 ^ 63
      → (n.number (redis_calls client json capacity s cs) (counter_key key)
          ≡ tally key (n.number s (counter_key key)) cs)
        × (n.counts (redis_calls client json capacity s cs) (counter_key key) ≡ true)
  unfolding tally
  number-redis_calls s g [] key fine h counts small = (refl, counts key)
  number-redis_calls s g (c ∷ cs) key (fine, rest) h counts small =
      let s1 = redis_call client json capacity s c in
      let one = (number-redis_call s g c key fine h counts).0 (omega arith) in
      let number' : or_zero 0 (n.number s1 (counter_key key)) + length cs < 2 ^ 63 =
        omega (arith, ap (or_zero 0) one, count_at-bound key c (n.number s (counter_key key))) in
      let (tallied, still) =
        number-redis_calls s1 (record_call g c) cs key rest
          (redis_call-Holds client l json capacity encode encode_mismatch s g c fine h)
          (λ name. (number-redis_call s g c name fine h counts).1) number' in
      (tallied ∙ ap (λ m. tally key m cs) one, still)

  -- A Redis server that holds nothing under any key of a list or a counter.
  abbrev pub IsFresh : client.Server → Type 0
  IsFresh s =
      IsEmpty client l s
      × ((key : String)
          → (n.number s (counter_key key) ≡ none) × (n.counts s (counter_key key) ≡ true))

  module _ (s : client.Server) (fresh : IsFresh s) (cs : List (Call Match Mismatch))
      (fine : All (IsFine json encode encode_mismatch) cs) (few : length cs < 2 ^ 63) where
    tally-recorded_calls :
        (key : String) → or_zero 0 (tally key none cs) ≡ recorded (record_calls empty_log cs) key
    tally-recorded_calls key =
        tally-recorded json encode encode_mismatch key none empty_log cs fine (ground arith)

    count_of-redis_calls :
        (key : String)
        → (count_of client capacity key (redis_calls client json capacity s cs)).0 ≡ (
            if touches key cs
            then ok (recorded (record_calls empty_log cs) key)
            else err "redis: nil")
    unfolding count_of
    count_of-redis_calls key =
        let bound : or_zero 0 (n.number s (counter_key key)) + length cs < 2 ^ 63 =
          omega (arith, ap (or_zero 0) (fresh.1 key).0) in
        let (tallied, still) =
          number-redis_calls s empty_log cs key fine
            (empty-Holds client l json capacity encode encode_mismatch s fresh.0)
            (λ name. (fresh.1 name).1) bound in
        n.get-number (counter_key key) (redis_calls client json capacity s cs) still
        ∙ ap or_missing
            (tallied ∙ ap (λ m. tally key m cs) (fresh.1 key).0 ∙ tally-touches key none cs)
        ∙ ground (arith, tally-recorded_calls key)

    recorded-bound : (key : String) → recorded (record_calls empty_log cs) key < 2 ^ 63
    recorded-bound key = omega (arith, tally-bound key none cs, tally-recorded_calls key)

    -- After the same calls, fewer than 2 ^ 63, with the records as they are at the calls, on a Redis server that holds
    -- nothing and on the store in memory: GetMatchesCount and GetMismatchesCount return the same numbers, if
    -- some call added or deleted matches of the endpoint, or mismatches; if none did, those of Redis are the error
    -- "redis: nil". It is assumed that the capacity is below 65535, that the Redis server answers, that JSON gives
    -- the records back as they were, and that no endpoint has the key of a counter or of the mismatches as its ID.
    pub redis_count-get_matches_count :
        (id : String)
        → capacity < 65535
        → IsName id
        → ((count_of client capacity id (redis_calls client json capacity s cs)).0 ≡ (
            if touches id cs
            then (get_matches_count id (serve_calls (new_inmemory capacity) cs)).0
            else err "redis: nil"))
          × ((count_of client capacity mismatches_key (redis_calls client json capacity s cs)).0 ≡ (
              if touches mismatches_key cs
              then (get_mismatches_count (serve_calls (new_inmemory capacity) cs)).0
              else err "redis: nil"))
    redis_count-get_matches_count id small name = (
      ground (
        arith,
        count_of-redis_calls id,
        recorded-bound id,
        name.1,
        (get_matches-serve_calls capacity small cs id).1,
      ),
      ground (
        arith,
        count_of-redis_calls mismatches_key,
        recorded-bound mismatches_key,
        eq_refl mismatches_key,
        (get_mismatches-serve_calls capacity small cs).1,
      ),
    )
