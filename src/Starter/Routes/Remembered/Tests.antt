-- ===== src/Starter/Routes/Remembered/Tests.antt =====
-- A client of the key-value store of mockgo/starter/starter.go, at concrete requests.
use text.Mathlib.Text.{starts_with}
use text.Mathlib.TextPositions.{starts_with-append}
use mathlib.Core.Path.{subst}
use mockgo_server.Prelude.{
  has_suffix, eq_iff, inl, inr, Bool-cases, ◌<>◌, if◌then◌else◌, ℕ, String, ◌==◌, ◌&&◌, ◌≡◌, true,
  false, or_zero, GoMap, Option, sym, ap, refl, List, [], ◌∷◌, none, some, none≢some, ok, lookup,
  codes,
}
use mockgo_server.Http.{Request, unread, header_get}
use mockgo_server.Http.Writer.{fresh, write_header}
use mockgo_server.Util.{is_protected}
use mockgo_server.Kvstore.{num}
use mockgo_server.Kvstore.Storing.{inmemory-StoresValues}
use mockgo_server.Kvstore.Handlers.{answer_value}
use mockgo_server.Starter.Samples.{program, config, ask, mux, idle}
use mockgo_server.Starter.Server.{Program, Server, Mux}
use mockgo_server.Starter.Routes.{serve_request, serve_requests}
use mockgo_server.Starter.Routes.Addressed.{Addresses, puts}
use mockgo_server.Starter.Routes.Spared.{outside, no_write, other_key, refused}
use mockgo_server.Starter.Routes.Remembered.{serve_requests-Sets}
use mockgo_server.Mock.Tree.{empty_node}

-- Two keys, and the templates without variables.
abbrev key_mux : Mux
key_mux = record mux {
  path_match = λ path r. elim (path == r.path) [
    | true ↦ some []
    | false ↦ elim (r.path == "/__/kvstore/s/k") [
      | true ↦
          if path == "/__/kvstore/{store}/{key}"
          then some (("store", "s") ∷ ("key", "k") ∷ [])
          else none
      | false ↦ elim (r.path == "/__/kvstore/s/health") [
        | true ↦
            if path == "/__/kvstore/{store}/{key}"
            then some (("store", "s") ∷ ("key", "health") ∷ [])
            else none
        | false ↦ none
      ]
    ]
  ];
}

under :
    (path known : String)
    → (path == known) ≡ true
    → starts_with known "/__" ≡ true
    → starts_with path "/__" ≡ true
under path known same h =
    subst (λ p. starts_with p "/__" ≡ true) (sym ((eq_iff path known).0 same)) h

key_mux-literal :
    (path : String) (r : Request) (vars : GoMap String)
    → key_mux.path_match ("/__" <> path) r ≡ some vars
    → starts_with r.path "/__" ≡ true
key_mux-literal path r vars h = elim (Bool-cases (("/__" <> path) == r.path)) [
  | inl same ↦
      subst (λ p. starts_with p "/__" ≡ true) ((eq_iff ("/__" <> path) r.path).0 same)
        (starts_with-append "/__" path)
  | inr template ↦ elim (Bool-cases (r.path == "/__/kvstore/s/k")) [
    | inl first ↦ under r.path "/__/kvstore/s/k" first refl
    | inr not_first ↦ elim (Bool-cases (r.path == "/__/kvstore/s/health")) [
      | inl second ↦ under r.path "/__/kvstore/s/health" second refl
      | inr not_second ↦
          absurd (none≢some vars (rw (template, not_first, not_second, key_mux) at h))
    ]
  ]
]

abbrev with_keys : Program String String
with_keys = record program { mux = key_mux }

abbrev server : Server with_keys
server = record { tree = empty_node; mock = idle }

abbrev known : String → String → Request
known method path = record (ask method path) {
  header = ("Content-Type", "application/json" ∷ []) ∷ ("Accept", "application/json" ∷ []) ∷ [];
  body = unread "7";
  basic_auth = some ("mockgo", "secret");
}

known-Addresses :
    (method : String) → Addresses with_keys config (known method "/__/kvstore/s/k") "s" "k"
known-Addresses method = record {
  clean = refl;
  under = refl;
  passes = inr refl;
  matched = refl;
  unmatched = (refl, (refl, (refl, (refl, (refl, (refl, tt))))));
  named_store = refl;
  named_key = refl;
}

abbrev between : List (ℕ × Request)
between =
    (43, known "PUT" "/__/kvstore/s/health")
    ∷ (44, ask "PUT" "/hello")
    ∷ (44, known "GET" "/__/kvstore/s/k")
    ∷ (45, ask "DELETE" "/__/kvstore/s/k")
    ∷ []

serve_requests-Sets_example :
    let changed = serve_request with_keys config 42 (known "PUT" "/__/kvstore/s/k") server in
    (changed.0 ≡ write_header 204 fresh)
    × ((serve_request with_keys config 46
          (known "GET" "/__/kvstore/s/k")
          (serve_requests with_keys config between changed.1.server)).0
        ≡ answer_value with_keys.kv_json (ok (num "7")) fresh)
unfolding header_get codes is_protected lookup
serve_requests-Sets_example =
    serve_requests-Sets with_keys config "s" "k" inmemory-StoresValues (num "7") key_mux-literal
      (λ t d kv. refl) server 42 46 (known "PUT" "/__/kvstore/s/k") (known "GET" "/__/kvstore/s/k")
      between (known-Addresses "PUT") (puts "7" refl refl refl refl)
      (
        other_key (λ vars h.
            ap
              (λ (found : Option (GoMap String)).
                or_zero "" (lookup "store" (or_zero [] found)) == "s"
                && or_zero "" (lookup "key" (or_zero [] found)) == "k")
              (sym h)),
        (outside refl, (no_write refl refl, (refused refl (none≢some ("mockgo", "secret")), tt))),
      )
      (known-Addresses "GET") (record { gets = refl; accepts_json = refl })

-- A client without credentials puts a value under the key "health", and reads it.
abbrev stranger : String → Request
stranger method = record (known method "/__/kvstore/s/health") { basic_auth = none }

stranger-Addresses : (method : String) → Addresses with_keys config (stranger method) "s" "health"
unfolding is_protected has_suffix
stranger-Addresses method = record {
  clean = refl;
  under = refl;
  passes = inl refl;
  matched = refl;
  unmatched = (refl, (refl, (refl, (refl, (refl, (refl, tt))))));
  named_store = refl;
  named_key = refl;
}

health_key_demo :
    (serve_request with_keys config 43
      (stranger "GET")
      (serve_request with_keys config 42 (stranger "PUT") server).1.server).0
    ≡ answer_value with_keys.kv_json (ok (num "7")) fresh
unfolding header_get codes serve_requests
health_key_demo =
    (serve_requests-Sets with_keys config "s" "health" inmemory-StoresValues (num "7")
      key_mux-literal (λ t d kv. refl) server 42 43 (stranger "PUT") (stranger "GET") []
      (stranger-Addresses "PUT") (puts "7" refl refl refl refl) tt (stranger-Addresses "GET")
      (record { gets = refl; accepts_json = refl })).1
