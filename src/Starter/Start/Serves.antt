-- ===== src/Starter/Start/Serves.antt =====
-- What a start that ends in a server that serves has done.
use mockgo_server.Prelude.{String, ◌≡◌, ◌≢◌, ◌↔◌, arith, none, Result, Result-cases, ok, inl, inr}
use mockgo_server.Util.Logging.{Zap, create_logger}
use mockgo_server.Mock.Routes.{State}
use mockgo_server.Mock.Model.{Endpoint}
use mockgo_server.Mock.Load.{load_files}
use mockgo_server.Mock.Tree.{Node, empty_node}
use mockgo_server.Starter.Routes.{mock_config}
use mockgo_server.Starter.{info, BasicConfiguration}
use mockgo_server.Starter.Server.{Program, Server}
use mockgo_server.Starter.Setup.{serving, setup_router}
use mockgo_server.Starter.Start.{start}

module _ {R T : Type 0} (program : Program R T) (zap : Zap) (log_type : String)
    (c : BasicConfiguration) (mock : State program.services program.engine)
    (s : Server program) where
  -- A logger with this level can be created.
  abbrev pub HasLogger : String → Type 0
  HasLogger level = (l : zap.Logger) × (create_logger zap log_type level ≡ ok l)

  has_api_logger : start program zap log_type c mock ≡ serving s → HasLogger c.loglevel_api
  unfolding start
  has_api_logger h = elim (Result-cases (create_logger zap log_type c.loglevel_api)) [
    | inl found ↦ found
    | inr (e, failed) ↦ absurd (ground (arith, h, failed))
  ]

  has_mock_logger : start program zap log_type c mock ≡ serving s → HasLogger c.loglevel_mock
  unfolding start
  has_mock_logger h = elim (Result-cases (create_logger zap log_type c.loglevel_mock)) [
    | inl found ↦ found
    | inr (e, failed) ↦ absurd (ground (arith, h, failed))
  ]

  serves : start program zap log_type c mock ≡ serving s → setup_router program c mock ≡ serving s
  unfolding start setup_router
  serves h = ground (arith, h)

  starts :
      setup_router program c mock ≡ serving s
      → HasLogger c.loglevel_api
      → HasLogger c.loglevel_mock
      → start program zap log_type c mock ≡ serving s
  unfolding start setup_router
  starts h (a, api) (b, mocks) = ground (arith, h, api, mocks)

  abbrev pub loaded : Result (Unit {0}) × Node (Endpoint R T)
  loaded = load_files program.disk (mock_config program c) empty_node

  -- What SetupRouter needs besides the loggers.
  abbrev pub IsReady : Type 0
  IsReady = (info c ≢ none) × (loaded.0 ≡ ok tt) × (s ≡ record { tree = loaded.1; mock = mock })

  setup_router-IsReady : setup_router program c mock ≡ serving s → IsReady
  unfolding setup_router
  setup_router-IsReady h = (λ none'. ground (arith, h, none'), ground (arith, h), ground (arith, h))

  IsReady-setup_router : IsReady → setup_router program c mock ≡ serving s
  unfolding setup_router
  IsReady-setup_router (text, done, same) = ground (arith, text, done, same)

  -- The start ends in a server that serves exactly when a logger can be created for both levels, the text of the
  -- basic configuration can be made, and the mock files can be loaded; the server then has the tree of these files, and
  -- the stores as they came.
  pub start-serving :
      (start program zap log_type c mock ≡ serving s)
      ↔ (HasLogger c.loglevel_api × HasLogger c.loglevel_mock × IsReady)
  start-serving = (
    λ h. (has_api_logger h, has_mock_logger h, setup_router-IsReady (serves h)),
    λ (api, mocks, ready). starts (IsReady-setup_router ready) api mocks,
  )
