-- ===== src/Redis/Kvstore.antt =====
-- mockgo-redis/kvstore/kvstore.go: a store is a hash, whose fields hold JSON texts.
pub mod Missing
pub mod Agree
use mockgo_server.Prelude.{String, Option, some, [], ◌∷◌, GoMap, insert, Result, ok, err, ◌>>=◌}
use mockgo_server.Kvstore.{Value, Storage}
use mockgo_server.Kvstore.Handlers.{Json}
use mockgo_server.Redis.{Client}

module _ (client : Client) (json : Json) where
  open client use {Server, hset, hget, hget_all, close}

  put_text : String → String → Result String → Server → Result (Unit {0}) × Server
  put_text store key (err e) s = (err e, s)
  put_text store key (ok text) s = hset store key text s

  -- Put
  unfoldable pub redis_put : String → String → Value → Server → Result (Unit {0}) × Server
  unfolding put_text
  redis_put store key val s = put_text store key (json.marshal val) s

  -- Get
  unfoldable pub redis_get : String → String → Server → Result Value × Server
  redis_get store key s = (hget store key s >>= λ text. json.unmarshal text, s)

  -- The loop of GetAll over the fields.
  decode_fields : GoMap Value → GoMap String → Result (GoMap Value)
  decode_fields found [] = ok found
  decode_fields found ((k, v) ∷ fields) =
      json.unmarshal v >>= λ val. decode_fields (insert k val found) fields

  -- GetAll
  unfoldable pub redis_get_all : String → Server → Result (Option (GoMap Value)) × Server
  unfolding decode_fields
  redis_get_all store s =
      (hget_all store s >>= λ fields. (decode_fields [] fields >>= λ m. ok (some m)), s)

  -- RedisStorage as a Storage
  abbrev pub redis_storage : Storage
  redis_storage = record {
    State = Server;
    get_all = redis_get_all;
    put = redis_put;
    get = redis_get;
    shutdown = close;
  }
