-- ===== src/Starter/Setup/Served.antt =====
-- What the server that SetupRouter of mockgo/starter/starter.go starts does with any request, after any
-- others.
use mockgo_server.Prelude.{ℕ, String, ◌≡◌, List, Option, none, some, Result, ok, err}
use mockgo_server.Http.{Request}
use mockgo_server.Mock.Model.{Endpoint}
use mockgo_server.Mock.Tree.{Node, empty_node}
use mockgo_server.Mock.Load.{load_files}
use mockgo_server.Mock.Load.Loaded.{HasTemplates, IsLoaded, load_files-IsLoaded}
use mockgo_server.Mock.Register.Content.{path_keys}
use mockgo_server.Mock.Register.Filed.{empty_node-IsFiled}
use mockgo_server.Mock.Routes.{State}
use mockgo_server.Mock.Search.{path_segments}
use mockgo_server.Mock.Search.Fitting.{Fits, until_empty}
use mockgo_server.Mock.Select.{World, match_request_to_endpoint}
use mockgo_server.Mock.Select.First.{Selected}
use mockgo_server.Mock.Served.{Answers, match_request_to_endpoint-IsLoaded}
use mockgo_server.Starter.{BasicConfiguration, info}
use mockgo_server.Starter.Server.{Program, Server}
use mockgo_server.Starter.Routes.{mock_config, serve_requests}
use mockgo_server.Starter.Routes.Kept.{serve_requests-IsLoaded}
use mockgo_server.Starter.Setup.{
  Startup, panicking, fatal, serving, on_loaded, with_info, setup_router,
}

module _ {R T : Type 0} (program : Program R T) where
  -- A server that serves has a tree with the invariant.
  Started : Startup program → Type 0
  Started panicking = Unit
  Started (fatal e) = Unit
  Started (serving s) = IsLoaded s.tree

  on_loaded-Started :
      (mock : State program.services program.engine)
      (loaded : Result (Unit {0}) × Node (Endpoint R T))
      → IsLoaded loaded.1
      → Started (on_loaded program mock loaded)
  unfolding on_loaded Started
  on_loaded-Started mock (err e, tree) h = tt
  on_loaded-Started mock (ok _, tree) h = h

  with_info-Started :
      (c : BasicConfiguration) (mock : State program.services program.engine) (text : Option String)
      → Started (with_info program c mock text)
  unfolding with_info Started
  with_info-Started c mock none = tt
  with_info-Started c mock (some text) =
      on_loaded-Started mock (load_files program.disk (mock_config program c) empty_node) (
        load_files-IsLoaded program.disk (mock_config program c) empty_node
          (empty_node-IsFiled HasTemplates))

  Started-with :
      (startup : Startup program) (s : Server program)
      → startup ≡ serving s
      → Started startup
      → IsLoaded s.tree
  unfolding Started
  Started-with startup s h started = rw h at started

  pub setup_router-IsLoaded :
      (c : BasicConfiguration) (mock : State program.services program.engine) (s : Server program)
      → setup_router program c mock ≡ serving s
      → IsLoaded s.tree
  unfolding setup_router
  setup_router-IsLoaded c mock s started =
      Started-with (setup_router program c mock) s started (with_info-Started c mock (info c))

  -- At any time after a start of the server, whatever requests it has answered, a reload of the mock files and writes
  -- to the stores included, the endpoint that it chooses for a request has its templates, its own path fits that of
  -- the request up to its first empty segment, its own key is made of the request's method and host or is the method,
  -- and of the endpoints that the tree then holds for the request it is the first one that accepts the query
  -- parameters, the headers and the body, all before it refusing one of these. An endpoint with a body expression
  -- accepts the text that the client sent, if it is the first with one whose query parameters and headers fit, and
  -- what that one left of it else.
  pub setup_router-serve_requests :
      (c : BasicConfiguration) (mock : State program.services program.engine) (s : Server program)
      (rs : List (ℕ × Request)) (now : ℕ) (r : Request) (w : World program.services)
      (e : Endpoint R T) (pointer : ℕ)
      → setup_router program c mock ≡ serving s
      → (match_request_to_endpoint program.services now
          (serve_requests program c rs s).tree
          r
          w).0.0
        ≡ some (e, pointer)
      → HasTemplates e
        × Fits (path_keys e) (until_empty (path_segments r.path))
        × Answers r e
        × Selected program.services (serve_requests program c rs s).tree r e
  setup_router-serve_requests c mock s rs now r w e pointer started chosen =
      match_request_to_endpoint-IsLoaded program.services now (serve_requests program c rs s).tree r
        w e pointer
        (serve_requests-IsLoaded program rs c s (setup_router-IsLoaded c mock s started)) chosen
