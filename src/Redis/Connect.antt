-- ===== src/Redis/Connect.antt =====
-- NewRedisStorage of mockgo-redis/kvstore/kvstore.go and NewRedisMatchstore of
-- mockgo-redis/matchstore/matchstore.go.
use mockgo_server.Prelude.{ℕ, String, Result, ok, ◌>>=◌}
use mockgo_server.Prelude.Int.{ℤ}
use mockgo_server.Redis.{Client}

-- The fields of redis.Options that the program sets, the times in milliseconds.
pub record Options : Type 0 where
  pub addr : String
  pub password : String
  pub db : ℤ
  pub max_retries : ℕ
  pub min_retry_backoff : ℕ
  pub max_retry_backoff : ℕ

abbrev pub options_of : String → String → ℤ → Options
options_of address password db = record {
  addr = address;
  password = password;
  db = db;
  max_retries = 30;
  min_retry_backoff = 500;
  max_retry_backoff = 2000;
}

-- redisMatchstore, with the database that its client is connected to
pub record RedisMatchstore (client : Client) : Type 0 where
  pub database : client.Server
  pub capacity : ℕ

-- `new_client` is redis.NewClient: the database that the options choose.
module _ (client : Client) (new_client : Options → client.Server) where
  check_connectivity : client.Server → Result (Unit {0})
  check_connectivity s = client.ping s

  -- NewRedisStorage
  unfoldable pub new_redis_storage : String → String → ℤ → Result client.Server
  unfolding check_connectivity
  new_redis_storage address password db =
      let s = new_client (options_of address password db) in check_connectivity s >>= λ _. ok s

  -- NewRedisMatchstore
  unfoldable pub new_redis_matchstore : String → String → ℤ → ℕ → Result (RedisMatchstore client)
  unfolding check_connectivity
  new_redis_matchstore address password db capacity =
      let s = new_client (options_of address password db) in
      check_connectivity s >>= λ _. ok (record { database = s; capacity = capacity })
