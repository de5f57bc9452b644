-- ===== src/Mock/Load/Tests.antt =====
-- A reload of mockgo/mock/requestHandler.go from a directory with one mock file.
use mockgo_server.Prelude.{◌≡◌, [], none, ok, err, ◌>>=◌}
use mockgo_server.Http.{Request, unread}
use mockgo_server.Http.Writer.{fresh, write_header}
use mockgo_server.Mock.Tree.{empty_node}
use mockgo_server.Mock.Samples.{disk}
use mockgo_server.Mock.Load.{Config, walk_match, load_files, handle_reload}
use mockgo_server.Mock.Register.Filed.{empty_node-IsFiled}
use mockgo_server.Mock.Load.Loaded.{HasTemplates, IsLoaded, load_files-IsLoaded}
use mockgo_server.Mock.Load.Reload.{read_mocks, all_endpoints, register_all, handle_reload_lem}

abbrev config : Config
config = record { mock_dir = "mocks"; mock_filepattern = "*-mock.*" }

abbrev ask : Request
ask = record {
  method = "POST";
  url = "/__/reload";
  path = "/__/reload";
  url_host = "";
  host = "localhost";
  query = [];
  header = [];
  body = unread "";
  vars = [];
  basic_auth = none;
}

handle_reload_lem_example :
    handle_reload disk config ask fresh empty_node
    ≡ (elim (walk_match disk "mocks" "*-mock.*" >>= λ files. read_mocks disk files) [
      | err e ↦ (write_header 500 fresh, empty_node)
      | ok ms ↦
          (write_header 200 fresh, register_all disk "mocks" 0 (all_endpoints disk ms) empty_node)
    ])
handle_reload_lem_example = handle_reload_lem disk config ask fresh empty_node

load_files-IsLoaded_example : IsLoaded (load_files disk config empty_node).1
load_files-IsLoaded_example =
    load_files-IsLoaded disk config empty_node (empty_node-IsFiled HasTemplates)
