-- ===== src/Starter/Start.antt =====
-- SetupRouter of mockgo/starter/starter.go with the loggers that it creates, and DefaultServing and
-- DefaultShutdown.
pub mod Serves
mod Tests
use mockgo_server.Prelude.{String, Option, none, some, Result, ok, err, ◌>>=◌}
use mockgo_server.Util.Logging.{Zap, create_logger}
use mockgo_server.Kvstore.Handlers as Kv
use mockgo_server.Matches.Handlers as Matches
use mockgo_server.Mock.Load as Mock
use mockgo_server.Mock.Load.{load_files}
use mockgo_server.Mock.Routes.{State}
use mockgo_server.Starter.{BasicConfiguration, info, server_address}
use mockgo_server.Starter.Server.{Program, Server}
use mockgo_server.Starter.Routes.{mock_config}
use mockgo_server.Starter.Setup.{Startup, panicking, fatal, serving}

-- What follows a step whose error is that of log.Fatal.
abbrev pub or_fatal :
    {R T A : Type 0} → (program : Program R T) → Result A → (A → Startup program) → Startup program
or_fatal program (err e) next = fatal e
or_fatal program (ok a) next = next a

module _ {R T : Type 0} (program : Program R T) (zap : Zap) (log_type : String) where
  logger_of : String → Result zap.Logger
  unfolding create_logger
  logger_of level = create_logger zap log_type level

  -- The steps behind Info: the handlers of the three packages, and the mock files in between.
  with_handlers : BasicConfiguration → State program.services program.engine → Startup program
  unfolding logger_of Kv.new_request_handler Matches.new_request_handler Mock.new_request_handler
      load_files
  with_handlers c mock =
      or_fatal program
        (Mock.new_request_handler {R = R} {T = T} c.api_path_prefix c.mock_dir c.mock_filepattern
          mock.world.stored mock.kv (logger_of c.loglevel_mock))
        λ mock_handler.
          let (loaded, tree) =
            load_files program.disk (mock_config program c) mock_handler.ep_search_node in
          or_fatal program loaded λ _.
            or_fatal program
              (Matches.new_request_handler c.api_path_prefix mock.world.stored
                (logger_of c.loglevel_api))
              λ _.
                or_fatal program
                  (Kv.new_request_handler c.api_path_prefix mock.kv (logger_of c.loglevel_api))
                  λ _. serving (record { tree = tree; mock = mock })

  behind_info :
      Option String → BasicConfiguration → State program.services program.engine → Startup program
  unfolding with_handlers
  behind_info none c mock = panicking
  behind_info (some text) c mock = with_handlers c mock

  -- SetupRouter, up to the point where the server serves
  unfoldable pub start :
      BasicConfiguration → State program.services program.engine → Startup program
  unfolding logger_of behind_info
  start c mock = or_fatal program (logger_of c.loglevel_api) λ _. behind_info (info c) c mock

-- DefaultServing: the address in the variable `server`, and the result of ListenAndServe
unfoldable pub default_serving :
    (String → Result (Unit {0})) → BasicConfiguration → Option String × Result (Unit {0})
default_serving listen_and_serve c = (some (server_address c), listen_and_serve (server_address c))

-- DefaultShutdown; it panics where the variable `server` is still nil
unfoldable pub default_shutdown :
    (String → Result (Unit {0})) → Option String → Option (Result (Unit {0}))
default_shutdown stop none = none
default_shutdown stop (some address) = some (stop address)
