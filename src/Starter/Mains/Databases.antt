-- ===== src/Starter/Mains/Databases.antt =====
-- The databases of mockgo-redis/cmd/mockgo/main.go.
use mockgo_server.Prelude.{◌≡◌, refl, ok}
use mockgo_server.Redis.{Client}
use mockgo_server.Redis.Connect.{new_redis_matchstore, new_redis_storage, Options, options_of}
use mockgo_server.Config.{RedisConfiguration, validate_redis}
use mockgo_server.Config.Databases.{validate_redis-Apart}
use mockgo_server.Prelude.Int.{ℤ}
use mockgo_server.Starter.{BasicConfiguration}
use mockgo_server.Starter.Mains.{redis_stores, uint16_of}

module _ (client : Client) (new_client : Options → client.Server)
    (alive : (o : Options) → client.ping (new_client o) ≡ ok tt) where
  -- Where validate accepts the configuration and the server answers, main makes both stores: they are connected to
  -- the same address, but to two databases, and the match store has the capacity modulo 2 ^ 16.
  redis_stores-validate :
      (basic : BasicConfiguration) (config : RedisConfiguration)
      → validate_redis config ≡ ok tt
      → (m : Options) × (v : Options) × (redis_stores client new_client basic config
          ≡ ok (
            record { database = new_client m; capacity = uint16_of basic.matches_capacity },
            new_client v,
          ))
        × (m.addr ≡ v.addr)
        × ¬ (m.db ≡ v.db)
  unfolding redis_stores new_redis_storage new_redis_matchstore
  redis_stores-validate basic config valid =
      let at : ℤ → Options = options_of config.redis_address config.redis_password in
      (
        at config.matchstore_redis_db,
        at config.kvstore_redis_db,
        rw (alive (at config.matchstore_redis_db), alive (at config.kvstore_redis_db)) refl,
        refl,
        validate_redis-Apart config valid,
      )
