-- ===== src/Mock/Samples.antt =====
-- An endpoint, a request and services for the tests of mockgo/mock/requestHandler.go.
use mockgo_server.Prelude.{ℕ, suc, String, ◌==◌, [], ◌∷◌, none, some, true, false, ok, err}
use mockgo_server.Prelude.Int.{pos}
use mockgo_server.Http.{Request, unread}
use mockgo_server.Matches.{Mismatch}
use mockgo_server.Matches.Inmemory.{inmemory_matchstore, new_inmemory}
use mockgo_server.Mock.Model.{Endpoint, Templates}
use mockgo_server.Mock.Tree.{Node, empty_node}
use mockgo_server.Mock.Register.{register_endpoint}
use mockgo_server.Mock.Select.{Services, World}
use mockgo_server.Mock.Render.{Engine}
use mockgo_server.Mock.Load.{Disk}

-- An expression fits the text that is its own; the metrics count matches and mismatches.
abbrev pub services : Services String
services = record {
  is_match = λ re s. re == s;
  Counters = ℕ × ℕ;
  count_match = λ id c. (suc c.0, c.1);
  count_mismatch = λ c. (c.0, suc c.1);
  store = inmemory_matchstore ℕ Mismatch;
}

abbrev pub start : World services
start = record { heap = []; stored = new_inmemory 10; counters = (0, 0) }

-- Templates are their own text; each run is counted in the key-value store.
abbrev pub engine : Engine String ℕ
engine = record {
  execute = λ t d k. (ok t, suc k);
  unmarshal_headers = λ text. ok [];
  unmarshal_object = λ text. err "no object";
  quote = λ text. text;
}

abbrev pub templates : Templates String
templates = record { body = "hello"; status = "200"; header = "" }

-- An endpoint with a method, a path, wanted query parameters and a body expression.
abbrev pub greeting : Endpoint String String
greeting = record {
  id = "greeting";
  mock = none;
  prio = pos 0;
  request = record {
    host = "";
    method = "";
    path = "/hello/{name}";
    query = ("lang", "en") ∷ [];
    headers = [];
    body = "hi";
    body_regexp = some "hi";
  };
  response = record {
    template = some templates;
    status_code = "200";
    headers = "";
    body = "";
    body_filename = "";
  };
}

abbrev pub ask : Request
ask = record {
  method = "GET";
  url = "/hello/joe?lang=en";
  path = "/hello/joe";
  url_host = "";
  host = "localhost:8080";
  query = ("lang", "en" ∷ []) ∷ [];
  header = [];
  body = unread "hi";
  vars = [];
  basic_auth = none;
}

abbrev pub tree : Node (Endpoint String String)
tree = register_endpoint greeting empty_node

abbrev pub hello : Endpoint String String
hello = record {
  id = "";
  mock = none;
  prio = pos 0;
  request = record {
    host = "";
    method = "";
    path = "/hello";
    query = [];
    headers = [];
    body = "";
    body_regexp = none;
  };
  response = record {
    template = none;
    status_code = "";
    headers = "";
    body = "hello";
    body_filename = "";
  };
}

-- A directory with one mock file, of two endpoints.
abbrev pub disk : Disk String String
disk = record {
  visits = λ root.
      record { path = "mocks"; base = "mocks"; dir = "."; is_dir = true; fault = none }
      ∷ record {
        path = "mocks/a-mock.yaml";
        base = "a-mock.yaml";
        dir = "mocks";
        is_dir = false;
        fault = none;
      }
      ∷ [];
  glob = λ pattern name. ok (name == "a-mock.yaml");
  read_file = λ file. ok "endpoints: …";
  base = λ file. "a-mock.yaml";
  join = λ dir file. file;
  unmarshal_mock = λ content. ok (record { name = ""; endpoints = hello ∷ hello ∷ [] });
  compile = λ text. ok text;
  parse = λ text. ok text;
}
