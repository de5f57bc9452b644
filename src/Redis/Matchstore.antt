-- ===== src/Redis/Matchstore.antt =====
-- mockgo-redis/matchstore/matchstore.go: the matches of an endpoint are a list of JSON texts under its
-- ID, their number stands under the ID with `__counter__`.
pub mod Capacity
pub mod Kept
pub mod Calls
pub mod Stored
pub mod Counters
pub mod Tally
pub mod Counted
pub mod Agree
use mockgo_server.Prelude.{
  ℕ, ◌<>◌, String, true, false, List, [], ◌∷◌, ◌++◌, Result, ok, err, ◌>>=◌, ltb,
}
use mockgo_server.Matches.{Match, Mismatch, Matchstore}
use mockgo_server.Redis.{Client}

-- json.Marshal and json.Unmarshal of the records.
pub record RecordJson : Type 0 where
  pub marshal_match : Match → Result String
  pub unmarshal_match : String → Result Match
  pub marshal_mismatch : Mismatch → Result String
  pub unmarshal_mismatch : String → Result Mismatch

abbrev pub mismatches_key : String
mismatches_key = "__mismatches__"

abbrev pub counter_key : String → String
counter_key key = key <> "__counter__"

-- The loop that decodes the elements of a list.
unfoldable pub decode_all :
    {A : Type 0} → (String → Result A) → List A → List String → Result (List A)
decode_all decode found [] = ok found
decode_all decode found (v ∷ vs) = decode v >>= λ a. decode_all decode (found ++ a ∷ []) vs

module _ (client : Client) (capacity : ℕ) where
  open client use {Server, rpush, lpop, llen, lrange, get, uint64, incr, set_zero, del, close}

  -- What follows a command whose error is returned at once.
  pub and_then :
      Result (Unit {0}) × Server
      → (Server → Result (Unit {0}) × Server)
      → Result (Unit {0}) × Server
  and_then (err e, s) next = (err e, s)
  and_then (ok _, s) next = next s

  -- `LLen(…).Val()`, which is 0 after an error
  or_none : Result ℕ → ℕ
  or_none (ok n) = n
  or_none (err e) = 0

  unfoldable pub trim : String → Server → Result (Unit {0}) × Server
  unfolding or_none
  trim key s = elim (ltb capacity (or_none (llen key s))) [ true ↦ lpop key s | false ↦ (ok tt, s) ]

  -- AddMatch and AddMismatch behind json.Marshal: RPUSH, LPOP where the list is longer than the
  -- capacity, INCR.
  unfoldable pub push : String → Result String → Server → Result (Unit {0}) × Server
  unfolding and_then trim
  push key (err e) s = (err e, s)
  push key (ok text) s =
      and_then (rpush key text s) (λ s1. and_then (trim key s1) (incr (counter_key key)))

  unfoldable pub count_of : String → Server → Result ℕ × Server
  count_of key s = (get (counter_key key) s >>= λ text. uint64 text, s)

  pub remove : String → Server → Result (Unit {0}) × Server
  unfolding and_then
  remove key s = and_then (del key s) (set_zero (counter_key key))

module _ (client : Client) (json : RecordJson) (capacity : ℕ) where
  open client use {Server, lrange, close}

  -- GetMatches; the nil slice is the empty list
  unfoldable pub redis_get_matches : String → Server → Result (List Match) × Server
  unfolding decode_all
  redis_get_matches id s = (lrange id s >>= λ vs. decode_all json.unmarshal_match [] vs, s)

  -- GetMismatches; the nil slice is the empty list
  unfoldable pub redis_get_mismatches : Server → Result (List Mismatch) × Server
  unfolding decode_all
  redis_get_mismatches s =
      (lrange mismatches_key s >>= λ vs. decode_all json.unmarshal_mismatch [] vs, s)

  -- AddMatch
  unfoldable pub redis_add_match : String → Match → Server → Result (Unit {0}) × Server
  unfolding push
  redis_add_match id m s = push client capacity id (json.marshal_match m) s

  -- AddMismatch
  unfoldable pub redis_add_mismatch : Mismatch → Server → Result (Unit {0}) × Server
  unfolding push
  redis_add_mismatch m s = push client capacity mismatches_key (json.marshal_mismatch m) s

  -- redisMatchstore as a Matchstore; the counts and the deletions work on the keys alone
  unfoldable pub redis_matchstore : Matchstore Match Mismatch
  unfolding count_of remove redis_get_matches redis_get_mismatches redis_add_match
      redis_add_mismatch
  redis_matchstore = record {
    State = Server;
    get_matches = redis_get_matches;
    get_matches_count = count_of client capacity;
    get_mismatches = redis_get_mismatches;
    add_match = redis_add_match;
    add_mismatch = redis_add_mismatch;
    get_mismatches_count = count_of client capacity mismatches_key;
    delete_matches = remove client capacity;
    delete_mismatches = remove client capacity mismatches_key;
    shutdown = close;
  }
