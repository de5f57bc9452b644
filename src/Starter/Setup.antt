-- ===== src/Starter/Setup.antt =====
-- SetupRouter of mockgo/starter/starter.go, up to the point where the server serves.
pub mod Served
pub mod Recorded
pub mod Reported
pub mod Forgotten
mod Tests
use mockgo_server.Prelude.{String, List, Option, none, some, Result, ok, err, false}
use mockgo_server.Mock.Model.{Endpoint}
use mockgo_server.Mock.Tree.{Node, empty_node}
use mockgo_server.Mock.Load.{load_files}
use mockgo_server.Mock.Routes.{State}
use mockgo_server.Starter.{BasicConfiguration, info}
use mockgo_server.Starter.Server.{Program, Server}
use mockgo_server.Starter.Routes.{mock_config}

module _ {R T : Type 0} (program : Program R T) where
  -- A start ends in a panic, in logger.Fatal with the error, or in a server that serves.
  pub data Startup : Type 0 where
    panicking : Startup
    fatal : String → Startup
    serving : Server program → Startup

  on_loaded :
      State program.services program.engine → Result (Unit {0}) × Node (Endpoint R T) → Startup
  on_loaded mock (err e, tree) = fatal e
  on_loaded mock (ok _, tree) = serving (record { tree = tree; mock = mock })

  with_info : BasicConfiguration → State program.services program.engine → Option String → Startup
  unfolding on_loaded
  with_info c mock none = panicking
  with_info c mock (some text) =
      on_loaded mock (load_files program.disk (mock_config program c) empty_node)

  -- SetupRouter, with the stores and the variables of the mock route as they are at the start
  unfoldable pub setup_router : BasicConfiguration → State program.services program.engine → Startup
  unfolding with_info
  setup_router c mock = with_info c mock (info c)
