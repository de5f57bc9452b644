-- ===== src/Redis.antt =====
-- mockgo-redis: the stores on a Redis server. The client of package go-redis is a parameter: each
-- command takes the state of the server and returns its result and the new state.
pub mod Connect
pub mod Kvstore
pub mod Matchstore
pub mod Samples
pub mod Typed
mod Tests
use mockgo_server.Prelude.{◌>>=◌, ℕ, String, Result, ok, err, GoMap, List}

pub record Client : Type 1 where
  pub Server : Type 0
  pub ping : Server → Result (Unit {0})
  pub hset : String → String → String → Server → Result (Unit {0}) × Server
  pub hget : String → String → Server → Result String
  pub hget_all : String → Server → Result (GoMap String)
  pub rpush : String → String → Server → Result (Unit {0}) × Server
  pub lpop : String → Server → Result (Unit {0}) × Server
  pub llen : String → Server → Result ℕ
  -- LRANGE from 0 to -1
  pub lrange : String → Server → Result (List String)
  pub get : String → Server → Result String
  -- StringCmd.Uint64 on a value
  pub uint64 : String → Result ℕ
  pub incr : String → Server → Result (Unit {0}) × Server
  -- SET of the number 0
  pub set_zero : String → Server → Result (Unit {0}) × Server
  pub del : String → Server → Result (Unit {0}) × Server
  pub close : Server → Result (Unit {0}) × Server
