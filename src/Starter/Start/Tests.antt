-- ===== src/Starter/Start/Tests.antt =====
-- Starts of mockgo/starter/starter.go with a log level that zap knows, and with another one.
use mockgo_server.Prelude.{◌==◌, ◌≡◌, ◌↔◌, refl, true, false, ok, err, none}
use mockgo_server.Util.Logging.{Zap}
use mockgo_server.Mock.Load.{load_files}
use mockgo_server.Mock.Tree.{empty_node}
use mockgo_server.Mock.Samples.{disk}
use mockgo_server.Starter.Server.{Server}
use mockgo_server.Starter.Samples.{program, config, idle}
use mockgo_server.Starter.Routes.{mock_config}
use mockgo_server.Starter.Setup.{serving, fatal}
use mockgo_server.Starter.Start.{start, default_shutdown}
use mockgo_server.Starter.Start.Serves.{HasLogger, IsReady, start-serving}

abbrev zap : Zap
zap = record {
  Level = Unit {0};
  Logger = Unit {0};
  parse_level = λ text. elim (text == "INFO") [ true ↦ ok tt | false ↦ err "unrecognized level" ];
  build = λ preset level. ok tt;
}

abbrev started : Server program
started = record { tree = (load_files disk (mock_config program config) empty_node).1; mock = idle }

start-serving_example : (start program zap "prod" config idle ≡ serving started) ↔ (
    HasLogger program zap "prod" config idle started "INFO"
    × HasLogger program zap "prod" config idle started "INFO"
    × IsReady program zap "prod" config idle started)
start-serving_example = start-serving program zap "prod" config idle started

unknown_level :
    start program zap "prod" (record config { loglevel_api = "LOUD" }) idle
    ≡ fatal "unrecognized level"
unfolding start
unknown_level = refl

-- A shutdown before DefaultServing has run.
early_shutdown : default_shutdown (λ address. ok tt) none ≡ none
unfolding default_shutdown
early_shutdown = refl
