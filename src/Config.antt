-- ===== src/Config.antt =====
-- The configurations of mockgo-grpc/cmd/mockgo/main.go and mockgo-redis/cmd/mockgo/main.go.
pub mod Addresses
pub mod Databases
use Prim.Native.String.{len, slice}
use mockgo_server.Prelude.{
  ◌||◌, ℕ, suc, ◌-◌, String, ◌==◌, ◌<>◌, Bool, true, false, List, [], ◌∷◌, Result, ok, err, ◌>>=◌,
  ltb, eqb, length, take, get_or, join, contains_char, if◌then◌else◌,
}
use mockgo_server.Prelude.Int.{ℤ, pos, negsuc}
use mockgo_server.Prelude.Decimal.{itoa}

-- fmt's `%d` of an int
abbrev pub show_int : ℤ → String
show_int (pos n) = itoa n
show_int (negsuc n) = "-" <> itoa (suc n)

-- Configuration of mockgo-grpc
pub record GrpcConfiguration : Type 0 where
  pub cluster_hostnames : List String
  pub matchstore_port : ℤ
  pub kvstore_port : ℤ

-- validate, which drops an empty hostname at the end
unfoldable pub validate : GrpcConfiguration → Result GrpcConfiguration
unfolding join
validate c =
    let count = length c.cluster_hostnames in
    if ltb count 2
    then err (
        "you must define multiple hostnames, but you have just '["
        <> join c.cluster_hostnames " "
        <> "]'")
    else ok (
        if get_or c.cluster_hostnames (count - 1) "" == ""
        then record c { cluster_hostnames = take (count - 1) c.cluster_hostnames }
        else c)

-- createAddresses
unfoldable pub create_addresses : List String → ℤ → List String
unfolding contains_char
create_addresses [] port = []
create_addresses (host ∷ hosts) port =
    (if contains_char host b':' then host else host <> ":" <> show_int port)
    ∷ create_addresses hosts port

-- The addresses that main hands to NewGrpcMatchstore and to NewGrpcStorage: both have the port of the
-- match store.
abbrev pub peer_addresses : GrpcConfiguration → List String × List String
peer_addresses c = (
  create_addresses c.cluster_hostnames c.matchstore_port,
  create_addresses c.cluster_hostnames c.matchstore_port,
)

-- info of mockgo-grpc
unfoldable pub grpc_info : GrpcConfiguration → String
unfolding join
grpc_info c =
    "\nGRPC:\n  Hostnames: ["
    <> join c.cluster_hostnames " "
    <> "] (\"CLUSTER_HOSTNAMES\")\n  KVStore Port: "
    <> show_int c.kvstore_port
    <> " (\"KVSTORE_PORT\")\n  Matchstore Port: "
    <> show_int c.matchstore_port
    <> " (\"MATCHSTORE_PORT\")\n\n"

-- Configuration of mockgo-redis
pub record RedisConfiguration : Type 0 where
  pub redis_address : String
  pub redis_password : String
  pub matchstore_redis_db : ℤ
  pub kvstore_redis_db : ℤ

same_int : ℤ → ℤ → Bool
same_int (pos a) (pos b) = eqb a b
same_int (negsuc a) (negsuc b) = eqb a b
same_int _ _ = false

unfoldable pub validate_redis : RedisConfiguration → Result (Unit {0})
unfolding same_int
validate_redis c =
    if same_int c.matchstore_redis_db c.kvstore_redis_db
    then err "redis db for matchstore and kvstore must be different"
    else ok tt

-- passwordInfo; the slice `[:3]` is in range behind the test
unfoldable pub password_info : String → String
password_info password =
    if password == "password" || ltb (len password) 4
    then "!! using UNSECURE password '" <> password <> "' "
    else slice password 0 3 <> "***"

-- info of mockgo-redis
unfoldable pub redis_info : RedisConfiguration → String
unfolding password_info
redis_info c =
    "\n\nRedis:\n  Address: '"
    <> c.redis_address
    <> "' (\"REDIS_ADDRESS\")\n  Password: '"
    <> password_info c.redis_password
    <> "' (\"REDIS_PASSWORD\")\n  Matchstore Database: "
    <> show_int c.matchstore_redis_db
    <> " (\"MATCHSTORE_REDIS_DB\")\n  KVStore Database: "
    <> show_int c.kvstore_redis_db
    <> " (\"KVSTORE_REDIS_DB\")\n\nRedis:\n"

-- The text before an error that log.Fatal prints.
abbrev pub fatal_with {ℓ} : {A : Type ℓ} → String → Result A → Result A
fatal_with text (err e) = err (text <> e)
fatal_with text (ok a) = ok a

-- initialization of mockgo-grpc, with what envconfig.Process makes of the environment; the error is that
-- of log.Fatal
unfoldable pub initialization : Result GrpcConfiguration → Result GrpcConfiguration
unfolding validate
initialization processed = fatal_with "can't create configuration: " processed >>= λ c.
    fatal_with "wrong configuration: " (validate c)

-- initialization of mockgo-redis
unfoldable pub initialization_redis : Result RedisConfiguration → Result RedisConfiguration
unfolding validate_redis
initialization_redis processed = fatal_with "can't create configuration: " processed >>= λ c.
    (fatal_with "wrong configuration: " (validate_redis c) >>= λ _. ok c)
