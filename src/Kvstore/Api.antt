-- ===== src/Kvstore/Api.antt =====
-- The errors of handlePutKVStore of mockgo/kvstore/requestHandler.go, over the storage in memory.
use mockgo_server.Prelude.{inr, ◌<>◌, inl, ◌⊎◌, ℕ, String, ◌≡◌, arith, ok, err}
use mockgo_server.Http.{Request, read_all}
use mockgo_server.Http.Writer.{Writer, status_after, status-http_error}
use mockgo_server.Kvstore.{Stores, inmemory_storage}
use mockgo_server.Kvstore.Handlers.{Json, handle_put_kv_store}

module _ (json : Json) (r : Request) (w : Writer) (s : Stores) where
  -- A PUT whose body cannot be read is answered 500, one whose body is no JSON 400, unless a status
  -- was sent before; neither changes the storage.
  handle_put_rejects :
      (e : String) (code : ℕ)
      → (((read_all r.body).0 ≡ err e) × (code ≡ 500))
        ⊎ ((text : String) × ((read_all r.body).0 ≡ ok text)
            × (json.unmarshal text ≡ err e)
            × (code ≡ 400))
      → ((handle_put_kv_store inmemory_storage json r w s).1 ≡ s)
        × ((handle_put_kv_store inmemory_storage json r w s).0.status ≡ status_after code w)
  unfolding handle_put_kv_store
  handle_put_rejects e code (inl (broke, same)) =
      ground (arith, status-http_error ("Problem reading request body: " <> e) 500 w)
  handle_put_rejects e code (inr (text, read, bad, same)) =
      ground (arith, status-http_error ("Can't parse request body: " <> e) 400 w)
