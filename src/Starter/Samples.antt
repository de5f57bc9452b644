-- ===== src/Starter/Samples.antt =====
-- A program, a configuration and a request for the tests of mockgo/starter/starter.go.
use text.Mathlib.Text.{starts_with}
use text.Mathlib.TextPositions.{starts_with-append}
use mathlib.Core.Path.{sym, subst}
use mockgo_server.Prelude.{
  not, ◌∷◌, refl, if◌then◌else◌, none≢some, inr, eq_iff, inl, Bool-cases, ◌≡◌, ◌<>◌, GoMap, String,
  ◌==◌, true, false, [], none, some, ok, err,
}
use mockgo_server.Prelude.Int.{pos}
use mockgo_server.Http.{Request, unread}
use mockgo_server.Http.Writer.{write_header}
use mockgo_server.Kvstore.{inmemory_storage, num}
use mockgo_server.Mock.Render.{Engine}
use mockgo_server.Mock.Routes.{State}
use mockgo_server.Mock.Samples.{services, start, disk}
use mockgo_server.Starter.{BasicConfiguration}
use mockgo_server.Starter.Server.{Mux, Program}

-- A path that begins with two slashes is not clean. The paths of the templates match themselves; one of them matches
-- a path with a variable too.
abbrev pub mux : Mux
mux = record {
  is_clean = λ path. not (starts_with path "//");
  path_match = λ path r. elim (path == r.path) [
    | true ↦ some []
    | false ↦ elim (r.path == "/__/matches/2") [
      | true ↦ if path == "/__/matches/{endpointId}" then some (("endpointId", "2") ∷ []) else none
      | false ↦ none
    ]
  ];
  no_route = λ r w. write_header 404 w;
}

abbrev pub engine : Engine String inmemory_storage.State
engine = record {
  execute = λ t d k. (ok t, k);
  unmarshal_headers = λ text. ok [];
  unmarshal_object = λ text. err "no object";
  quote = λ text. text;
}

abbrev pub program : Program String String
program = record {
  services = services;
  storage = inmemory_storage;
  engine = engine;
  disk = disk;
  match_json = λ heap. record {
    marshal_matches = λ ms. ok "[]";
    marshal_mismatches = λ ms. ok "[]";
    marshal_count = λ n. ok "0";
  };
  kv_json = record {
    unmarshal = λ text. ok (num text);
    marshal = λ v. ok "1";
    marshal_map = λ m. ok "{}";
  };
  mux = mux;
  metrics = λ counters w. w;
}

abbrev pub config : BasicConfiguration
config = record {
  loglevel_api = "INFO";
  loglevel_mock = "INFO";
  mock_port = pos 8081;
  mock_dir = "mocks";
  mock_filepattern = "*-mock.*";
  matches_capacity = pos 1000;
  api_path_prefix = "/__";
  api_username = "mockgo";
  api_password = "secret";
}

abbrev pub idle : State services engine
idle = record {
  shared = record { choice = none; path_params = []; query_params = [] };
  world = start;
  kv = [];
}

abbrev pub ask : String → String → Request
ask method path = record {
  method = method;
  url = path;
  path = path;
  url_host = "";
  host = "localhost:8081";
  query = [];
  header = [];
  body = unread "";
  vars = [];
  basic_auth = none;
}

pub prefix_literal :
    (path : String) (r : Request) (vars : GoMap String)
    → mux.path_match ("/__" <> path) r ≡ some vars
    → starts_with r.path "/__" ≡ true
prefix_literal path r vars h = elim (Bool-cases (("/__" <> path) == r.path)) [
  | inl same ↦
      subst (λ p. starts_with p "/__" ≡ true) ((eq_iff ("/__" <> path) r.path).0 same)
        (starts_with-append "/__" path)
  | inr other' ↦ elim (Bool-cases (r.path == "/__/matches/2")) [
    | inl one ↦
        subst (λ p. starts_with p "/__" ≡ true) (sym ((eq_iff r.path "/__/matches/2").0 one)) refl
    | inr none' ↦ absurd (none≢some vars (rw (other', none', mux) at h))
  ]
]
