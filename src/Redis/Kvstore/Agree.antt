-- ===== src/Redis/Kvstore/Agree.antt =====
-- mockgo-redis/kvstore/kvstore.go against mockgo/kvstore/storage.go.
use mockgo_server.Prelude.{
  lookup, Bool-cases, inl, inr, String, ◌≡◌, ◌==◌, ◌&&◌, refl, Option, none, some, All, List, [],
  ◌∷◌, Result, ok, err, ◌>>=◌, if◌then◌else◌, or_zero,
}
use mockgo_server.Kvstore.{Value, null, new_inmemory_storage, inmemory_storage, get}
use mockgo_server.Kvstore.Handlers.{Json}
use mockgo_server.Kvstore.Written.{Written, note_put, note_puts, put_all, IsEncoded, get-put_all}
use mockgo_server.Redis.{Client}
use mockgo_server.Redis.Kvstore.{redis_put, redis_get, redis_storage}

-- HGET: the error `redis: nil` stands for a missing field.
abbrev pub or_nil {ℓ} : {A : Type ℓ} → Option A → Result A
or_nil none = err "redis: nil"
or_nil (some a) = ok a

-- What the documentation of Redis says of HSET and HGET, for a server that answers.
pub record Hashes (client : Client) : Type 0 where
  pub field_of : client.Server → String → String → Option String
  pub hget-field_of :
      (store key : String) (s : client.Server)
      → client.hget store key s ≡ or_nil (field_of s store key)
  pub field_of-hset :
      (store key text store' key' : String) (s : client.Server)
      → field_of (client.hset store key text s).1 store' key'
        ≡ (if store == store' && key == key' then some text else field_of s store' key')

module _ (json : Json) (encode : Value → String) where
  -- A field holds the text of the value, or there is neither.
  abbrev Holds : Option String → Option Value → Type 0
  Holds none none = Unit {0}
  Holds none (some v) = ⊥
  Holds (some text) none = ⊥
  Holds (some text) (some v) = json.unmarshal text ≡ ok v

  or_nil-Holds :
      (found : Option String) (held : Option Value)
      → Holds found held
      → (or_nil found >>= json.unmarshal) ≡ or_nil held
  or_nil-Holds none none same = refl
  or_nil-Holds none (some v) same = absurd same
  or_nil-Holds (some text) none same = absurd same
  or_nil-Holds (some text) (some v) same = same

module _ (client : Client) (h : Hashes client) (json : Json) (encode : Value → String) where
  Holds-put :
      (held : String → String → Option Value) (c : Written) (s : client.Server)
      → IsEncoded json encode c.val
      → ((store key : String) → Holds json encode (h.field_of s store key) (held store key))
      → (store key : String)
      → Holds json encode
          (h.field_of ((redis_storage client json).put c.store c.key c.val s).1 store key)
          (note_put held c store key)
  unfolding redis_put
  Holds-put held c s (same, back) holds store key =
      elim (Bool-cases (c.store == store && c.key == key)) [
        | inl hit ↦ rw (same, h.field_of-hset c.store c.key (encode c.val) store key s, hit) back
        | inr miss ↦
            rw (same, h.field_of-hset c.store c.key (encode c.val) store key s, miss)
              (holds store key)
      ]

  Holds-put_all :
      (cs : List Written) (held : String → String → Option Value) (s : client.Server)
      → All (λ c. IsEncoded json encode c.val) cs
      → ((store key : String) → Holds json encode (h.field_of s store key) (held store key))
      → (store key : String)
      → Holds json encode
          (h.field_of (put_all (redis_storage client json) cs s) store key)
          (note_puts held cs store key)
  Holds-put_all [] held s encoded holds = holds
  Holds-put_all (c ∷ cs) held s (same, encoded) holds =
      Holds-put_all cs (note_put held c) _ encoded (Holds-put held c s same holds)

-- After the same calls of Put on a Redis server without a field and on the storage in memory: Get returns the value that
-- was put under this store and key last, from both; where there is none, it returns nil from the storage in memory,
-- and the error `redis: nil` from Redis. It is assumed that the server answers, and that JSON gives the values back
-- as they were.
pub redis_get-put_all :
    (client : Client) (h : Hashes client) (json : Json) (encode : Value → String)
    (cs : List Written) (s : client.Server) (store key : String)
    → ((store' key' : String) → h.field_of s store' key' ≡ none)
    → All (λ c. IsEncoded json encode c.val) cs
    → ((redis_get client json store key (put_all (redis_storage client json) cs s)).0
        ≡ or_nil (note_puts (λ store' key'. none) cs store key))
      × ((get store key (put_all inmemory_storage cs new_inmemory_storage)).0
          ≡ ok (or_zero null (note_puts (λ store' key'. none) cs store key)))
unfolding redis_get get lookup
redis_get-put_all client h json encode cs s store key empty encoded = (
  rw (h.hget-field_of store key (put_all (redis_storage client json) cs s)) (
      or_nil-Holds json encode _ _ (
        Holds-put_all client h json encode cs (λ store' key'. none) s encoded
          (λ store' key'. rw (empty store' key') tt) store key)),
  get-put_all cs (λ store' key'. none) new_inmemory_storage (λ store' key'. refl) store key,
)
