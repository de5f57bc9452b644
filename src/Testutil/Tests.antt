-- ===== src/Testutil/Tests.antt =====
-- A request with credentials, and the assertion on the answer of a handler.
use mockgo_server.Prelude.{
  ℕ, suc, ◌≡◌, refl, arith, ◌↔◌, false, [], ◌∷◌, some, ok, codes, IsAscii, contains_char,
}
use mockgo_server.Http.{Request, unread}
use mockgo_server.Http.BasicAuth.{parse_basic_auth}
use mockgo_server.Http.Writer.{write_header}
use mockgo_server.Util as Util
use mockgo_server.Util.{Handler, basic_auth_middleware}
use mockgo_server.Util.Credentials.{basic_auth-parsed}
use mockgo_server.Testutil.{
  Header, with_auth, set_header, new_request, Url, NetUrl, create_incoming_request,
  assert_handler_func, rand_string,
}

mockgo-IsAscii : IsAscii "mockgo"
unfolding codes
mockgo-IsAscii = omega arith

password-IsAscii : IsAscii "password"
unfolding codes
password-IsAscii = omega arith

basic_auth-parsed_example :
    (parse_basic_auth (Util.basic_auth "mockgo" "password") ≡ some ("mockgo", "password"))
    ↔ (contains_char "mockgo" b':' ≡ false)
basic_auth-parsed_example = basic_auth-parsed "mockgo" "password" mockgo-IsAscii password-IsAscii

abbrev json : Header
json = ("Accept", "application/json" ∷ []) ∷ []

abbrev url : Url
url = record {
  text = "http://localhost//__/kvstore/s/k";
  path = "//__/kvstore/s/k";
  host = "localhost";
  query = [];
}

abbrev parse : NetUrl
parse text = ok url

abbrev ask : Request
ask = set_header (new_request "GET" url (unread "")) (with_auth "mockgo" "password" json)

-- A handler that counts its calls.
abbrev count : Handler ℕ
count r w s = (write_header 204 w, suc s)

made :
    create_incoming_request parse "GET" "/__/kvstore/s/k" (with_auth "mockgo" "password" json) ""
    ≡ ok ask
unfolding create_incoming_request
made = refl

-- The handler's answer, as AssertHandlerFunc sees it.
assert_handler_func_demo :
    assert_handler_func ask count 3
    ≡ (ok (record { status_code = 204; header = []; body = unread "" }, ""), 4)
unfolding assert_handler_func write_header
assert_handler_func_demo = refl

rand_string_demo : rand_string (0 ∷ 53 ∷ 51 ∷ []) ≡ "abZ"
unfolding rand_string
rand_string_demo = refl
