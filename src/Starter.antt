-- ===== src/Starter.antt =====
-- mockgo/starter/starter.go: the basic configuration and its text.
pub mod Server
pub mod Routes
pub mod Setup
pub mod Start
pub mod Lifecycle
pub mod Mains
pub mod Samples
use Prim.Native.String.{len, slice}
use mockgo_server.Prelude.{
  String, ◌==◌, ◌<>◌, Option, none, some, Result, ok, err, ltb, if◌then◌else◌,
}
use mockgo_server.Prelude.Int.{ℤ}
use mockgo_server.Config.{show_int}

-- BasicConfiguration
pub record BasicConfiguration : Type 0 where
  pub loglevel_api : String
  pub loglevel_mock : String
  pub mock_port : ℤ
  pub mock_dir : String
  pub mock_filepattern : String
  pub matches_capacity : ℤ
  pub api_path_prefix : String
  pub api_username : String
  pub api_password : String

-- s[:3], which panics on a text of fewer than three bytes
unfoldable pub first_three : String → Option String
first_three s = if ltb (len s) 3 then none else some (slice s 0 3)

-- The message on the password.
unfoldable pub password_message : String → Option String
unfolding first_three
password_message password =
    if password == "password"
    then some "!! using UNSECURE password 'password'"
    else (elim (first_three password) [ none ↦ none | some start ↦ some (start <> "***") ])

info_text : BasicConfiguration → String → String
info_text c message =
    "\n\nAPI: \n  Path prefix: '"
    <> c.api_path_prefix
    <> "' (\"API_PATH_PREFIX\")\n  BasicAuth User: '"
    <> c.api_username
    <> "' (\"API_USERNAME\")\n  BasicAuth Password: "
    <> message
    <> " (\"API_PASSWORD\")\n  LogLevel: '"
    <> c.loglevel_api
    <> "' (\"LOGLEVEL_API\")\n\nMock Server:\n  Port: "
    <> show_int c.mock_port
    <> " (\"MOCK_PORT\")\n  Dir: '"
    <> c.mock_dir
    <> "' (\"MOCK_DIR\")\n  Filepattern: '"
    <> c.mock_filepattern
    <> "' (\"MOCK_FILEPATTERN\")\n  LogLevel: '"
    <> c.loglevel_mock
    <> "' (\"LOGLEVEL_MOCK\")\n  \nMatches:\n  Capacity: "
    <> show_int c.matches_capacity
    <> " (\"MATCHES_CAPACITY\")\n  "

-- Info; it panics where the slice of the password does
unfoldable pub info : BasicConfiguration → Option String
unfolding info_text password_message
info c = elim (password_message c.api_password) [
  | none ↦ none
  | some message ↦ some (info_text c message)
]

-- The address of DefaultServing.
abbrev pub server_address : BasicConfiguration → String
server_address c = ":" <> show_int c.mock_port

-- init of package starter, with what envconfig.Process makes of the environment; the error stands for log.Fatal,
-- which prints the error of envconfig too.
unfoldable pub init_config : Result BasicConfiguration → Result BasicConfiguration
init_config (err e) = err "can't create configuration"
init_config (ok c) = ok c
