-- ===== src/Grpc/Kvstore.antt =====
-- mockgo-grpc/kvstore/kvstore.go: every server keeps the values in memory, and a write goes to all.
pub mod Calls
pub mod Crossing
pub mod Agree
use mockgo_server.Prelude.{ℕ, String, List, Result, ok, err}
use mockgo_server.Grpc.Attempt.{call_all}
use mockgo_server.Kvstore.{Value, Stores, put}
use mockgo_server.Kvstore.Handlers.{Json}

-- The generated clients: the call StoreVal of the peer with a number, on the state of the whole
-- cluster, with its result, which is an error if the peer refuses or the network fails.
pub record Peers : Type 1 where
  pub Cluster : Type 0
  pub store_val : ℕ → String → String → String → Cluster → Result (Unit {0}) × Cluster

module _ (json : Json) where
  put_decoded : String → String → Result Value → Stores → Result (Unit {0}) × Stores
  put_decoded store key (err e) s = (err e, s)
  put_decoded store key (ok val) s = put store key val s

  -- StoreVal, on the server that is called
  unfoldable pub handle_store_val : String → String → String → Stores → Result (Unit {0}) × Stores
  unfolding put_decoded
  handle_store_val store key text s = put_decoded store key (json.unmarshal text) s

module _ (peers : Peers) (json : Json) where
  put_encoded :
      List ℕ → String → String → Result String → peers.Cluster → Result (Unit {0}) × peers.Cluster
  unfolding call_all
  put_encoded clients store key (err e) s = (err e, s)
  put_encoded clients store key (ok text) s =
      call_all (λ i s'. peers.store_val i store key text s') clients s

  -- Put, over the clients of this server
  unfoldable pub grpc_put :
      List ℕ → String → String → Value → peers.Cluster → Result (Unit {0}) × peers.Cluster
  unfolding put_encoded
  grpc_put clients store key val s = put_encoded clients store key (json.marshal val) s
