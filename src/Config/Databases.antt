-- ===== src/Config/Databases.antt =====
-- What validate of mockgo-redis/cmd/mockgo/main.go accepts.
use mockgo_server.Prelude.{◌≡◌, true, ok, arith}
use mockgo_server.Prelude.Int.{ℤ, pos, negsuc}
use mockgo_server.Config.{RedisConfiguration, same_int, validate_redis}

same_int_refl : (a : ℤ) → same_int a a ≡ true
unfolding same_int
same_int_refl (pos n) = ground arith
same_int_refl (negsuc n) = ground arith

-- validate accepts only two different databases.
pub validate_redis-Apart :
    (c : RedisConfiguration)
    → validate_redis c ≡ ok tt
    → ¬ (c.matchstore_redis_db ≡ c.kvstore_redis_db)
unfolding validate_redis
validate_redis-Apart c valid same = ground (arith, valid, same, same_int_refl c.kvstore_redis_db)
