-- ===== src/Redis/Kvstore/Missing.antt =====
-- The key-value store's API over mockgo-redis/kvstore/kvstore.go.
use mockgo_server.Prelude.{◌≡◌, none, err, lookup, arith}
use mockgo_server.Http.{Request, path_var}
use mockgo_server.Http.Writer.{Writer, write_header, http_error}
use mockgo_server.Kvstore.{get, Stores, inmemory_storage}
use mockgo_server.Kvstore.Handlers.{Json, answer_value, handle_get_kv_store}
use mockgo_server.Redis.{Client}
use mockgo_server.Redis.Kvstore.{redis_get, redis_storage}

module _ (client : Client) (json : Json) where
  -- The two storages differ on a key that was never written: a GET of it is answered 404 over the
  -- storage in memory, and 500 with the text `redis: nil` over Redis, whose HGET returns this error for
  -- a missing field.
  handle_get_missing :
      (r : Request) (w : Writer) (stores : Stores) (s : client.Server)
      → lookup (path_var r "store") stores ≡ none
      → client.hget (path_var r "store") (path_var r "key") s ≡ err "redis: nil"
      → ((handle_get_kv_store inmemory_storage json r w stores).0 ≡ write_header 404 w)
        × ((handle_get_kv_store (redis_storage client json) json r w s).0
            ≡ http_error "redis: nil" 500 w)
  unfolding handle_get_kv_store redis_get get answer_value
  handle_get_missing r w stores s missing nil = (ground arith, ground arith)
