-- ===== src/Util/Tests.antt =====
-- The theorems on mockgo/util/http.go at concrete requests.
use mockgo_server.Prelude.{suc, ℕ, String, ◌≡◌, refl, [], Option, none}
use mockgo_server.Http.{Request, unread}
use mockgo_server.Http.Writer.{fresh}
use mockgo_server.Util.{Handler, basic_auth_middleware}

abbrev ask : String → Option (String × String) → Request
ask path credentials = record {
  method = "GET";
  url = path;
  path = path;
  url_host = "";
  host = "localhost";
  query = [];
  header = [];
  body = unread "";
  vars = [];
  basic_auth = credentials;
}

-- A handler that counts its calls.
abbrev count : Handler ℕ
count r w s = (w, suc s)

abbrev guarded : Handler ℕ
guarded = basic_auth_middleware "/__" "mockgo" "secret" count

-- A request without credentials, under the prefix, whose path ends in "/health".
health_demo : guarded (ask "/__/kvstore/s/health" none) fresh 3 ≡ (fresh, 4)
unfolding basic_auth_middleware
health_demo = refl
