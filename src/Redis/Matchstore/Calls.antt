-- ===== src/Redis/Matchstore/Calls.antt =====
-- Sequences of calls of mockgo-redis/matchstore/matchstore.go, and the keys that they use.
use mockgo_server.Prelude.{
  eq_iff, has_suffix, has_suffix-append, ◌==◌, false, ℕ, String, ◌≡◌, refl, arith, List, [], ◌∷◌,
  ok,
}
use mockgo_server.Matches.{Match, Mismatch}
use mockgo_server.Matches.Inmemory.Log.{Call, matched, missed, matches_deleted, mismatches_deleted}
use mockgo_server.Redis.{Client}
use mockgo_server.Redis.Matchstore.{
  remove, mismatches_key, redis_add_mismatch, RecordJson, counter_key, redis_add_match,
}

-- A text that is neither the key of a counter nor that of the mismatches.
abbrev pub IsName : String → Type 0
IsName id = (has_suffix id "__counter__" ≡ false) × ((id == mismatches_key) ≡ false)

pub name-ne-counter :
    (id key : String) → has_suffix id "__counter__" ≡ false → (counter_key key == id) ≡ false
name-ne-counter id key h =
    ground (arith, h, has_suffix-append key "__counter__", eq_iff (counter_key key) id)

pub mismatches_key-has_suffix : has_suffix mismatches_key "__counter__" ≡ false
unfolding has_suffix
mismatches_key-has_suffix = refl

module _ (json : RecordJson) (encode : Match → String) (encode_mismatch : Mismatch → String) where
  -- JSON gives the records of a call back as they were, and its endpoint's ID is a name.
  abbrev pub IsFine : Call Match Mismatch → Type 0
  IsFine (matched id m) =
      IsName id × (json.marshal_match m ≡ ok (encode m)) × (json.unmarshal_match (encode m) ≡ ok m)
  IsFine (missed n) =
      (json.marshal_mismatch n ≡ ok (encode_mismatch n))
      × (json.unmarshal_mismatch (encode_mismatch n) ≡ ok n)
  IsFine (matches_deleted id) = IsName id
  IsFine mismatches_deleted = Unit {0}

module _ (client : Client) (json : RecordJson) (capacity : ℕ) where
  -- The calls, one after the other.
  abbrev pub redis_call : client.Server → Call Match Mismatch → client.Server
  redis_call s (matched id m) = (redis_add_match client json capacity id m s).1
  redis_call s (missed n) = (redis_add_mismatch client json capacity n s).1
  redis_call s (matches_deleted id) = (remove client capacity id s).1
  redis_call s mismatches_deleted = (remove client capacity mismatches_key s).1

  abbrev pub redis_calls : client.Server → List (Call Match Mismatch) → client.Server
  redis_calls s [] = s
  redis_calls s (c ∷ cs) = redis_calls (redis_call s c) cs
