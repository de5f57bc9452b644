-- ===== src/Grpc/Connect.antt =====
-- NewGrpcMatchstore of mockgo-grpc/matchstore/matchstore.go and NewGrpcStorage of
-- mockgo-grpc/kvstore/kvstore.go: a client for every address, and an empty store in memory.
use mockgo_server.Prelude.{ℕ, String, List, [], ◌∷◌, Result, ok, ◌>>=◌}
use mockgo_server.Kvstore.{Stores, new_inmemory_storage}
use mockgo_server.Matches.{Mismatch}
use mockgo_server.Matches.Inmemory.{Inmemory, new_inmemory}

-- grpcMatchstore and grpcStorage, over the type of the generated clients
pub record GrpcMatchstore (C : Type 0) : Type 0 where
  pub matchstore : Inmemory ℕ Mismatch
  pub clients : List C

pub record GrpcStorage (C : Type 0) : Type 0 where
  pub storage : Stores
  pub clients : List C

module _ {C : Type 0} (dial : String → Result C) where
  -- The loop over the addresses, which the first error of grpc.Dial ends.
  unfoldable pub connect_all : List String → Result (List C)
  connect_all [] = ok []
  connect_all (address ∷ addresses) =
      dial address >>= λ client. (connect_all addresses >>= λ clients. ok (client ∷ clients))

  -- NewGrpcMatchstore
  unfoldable pub new_grpc_matchstore : List String → ℕ → Result (GrpcMatchstore C)
  unfolding connect_all new_inmemory
  new_grpc_matchstore addresses capacity = connect_all addresses >>= λ clients.
      ok (record { matchstore = new_inmemory capacity; clients = clients })

  -- NewGrpcStorage
  unfoldable pub new_grpc_storage : List String → Result (GrpcStorage C)
  unfolding connect_all
  new_grpc_storage addresses = connect_all addresses >>= λ clients.
      ok (record { storage = new_inmemory_storage; clients = clients })
