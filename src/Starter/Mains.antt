-- ===== src/Starter/Mains.antt =====
-- The stores that the functions main make of the configurations: mockgo-standalone/cmd/mockgo/main.go,
-- mockgo-grpc/cmd/mockgo/main.go and mockgo-redis/cmd/mockgo/main.go.
pub mod Capacity
pub mod Databases
mod Tests
use mockgo_server.Prelude.{ℕ, ◌-◌, ◌%◌, ◌^◌, String, List, Result, ok, ◌>>=◌}
use mockgo_server.Prelude.Int.{ℤ, pos, negsuc}
use mockgo_server.Kvstore.{Stores, new_inmemory_storage}
use mockgo_server.Matches.{Mismatch}
use mockgo_server.Matches.Inmemory.{Inmemory, new_inmemory}
use mockgo_server.Config.{GrpcConfiguration, create_addresses, RedisConfiguration}
use mockgo_server.Grpc.Connect.{GrpcMatchstore, GrpcStorage, new_grpc_matchstore, new_grpc_storage}
use mockgo_server.Redis.{Client}
use mockgo_server.Redis.Connect.{Options, RedisMatchstore, new_redis_storage, new_redis_matchstore}
use mockgo_server.Starter.{BasicConfiguration}

-- uint16(n) of an int
abbrev pub uint16_of : ℤ → ℕ
uint16_of (pos n) = n % 2 ^ 16
uint16_of (negsuc n) = 2 ^ 16 - 1 - n % 2 ^ 16

-- main of mockgo-standalone: the stores that it hands to SetupRouter
unfoldable pub standalone_stores : BasicConfiguration → Inmemory ℕ Mismatch × Stores
unfolding new_inmemory
standalone_stores basic = (new_inmemory (uint16_of basic.matches_capacity), new_inmemory_storage)

-- main of mockgo-grpc: the stores that it hands to SetupRouter, or the first error. Both have the addresses
-- with the port of the match store.
unfoldable pub grpc_stores :
    {C D : Type 0}
    → (String → Result C)
    → (String → Result D)
    → BasicConfiguration
    → GrpcConfiguration
    → Result (GrpcMatchstore C × GrpcStorage D)
unfolding new_grpc_matchstore new_grpc_storage
grpc_stores dial_matches dial_values basic config =
    new_grpc_matchstore dial_matches
      (create_addresses config.cluster_hostnames config.matchstore_port)
      (uint16_of basic.matches_capacity)
    >>= λ matches.
        (new_grpc_storage dial_values
            (create_addresses config.cluster_hostnames config.matchstore_port)
          >>= λ values. ok (matches, values))

-- main of mockgo-redis: the stores that it hands to SetupRouter, or the error of log.Fatalf
unfoldable pub redis_stores :
    (client : Client)
    → (Options → client.Server)
    → BasicConfiguration
    → RedisConfiguration
    → Result (RedisMatchstore client × client.Server)
unfolding new_redis_storage new_redis_matchstore
redis_stores client new_client basic config =
    new_redis_matchstore client new_client config.redis_address config.redis_password
      config.matchstore_redis_db (uint16_of basic.matches_capacity)
    >>= λ matches.
        (new_redis_storage client new_client config.redis_address config.redis_password
            config.kvstore_redis_db
          >>= λ values. ok (matches, values))
