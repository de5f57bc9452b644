-- ===== src/Testutil.antt =====
-- mockgo/testutil/http.go and util.go: the requests that the tests build, and the calls of a handler or of the
-- test server.
pub mod Credentials
mod Tests
use Prim.Native.String
use mockgo_server.Prelude.{
  ℕ, ◌%◌, String, ◌<>◌, Bool, eqb, List, [], ◌∷◌, Option, none, some, GoMap, insert, Result, ok,
  err, ◌>>=◌, codes, text_of,
}
use mockgo_server.Http.{Body, unread, broken, read_all, Request, first_value}
use mockgo_server.Http.Base64.{encode}
use mockgo_server.Http.BasicAuth.{header_add, basic_auth_of}
use mockgo_server.Http.Writer.{Writer, fresh}
use mockgo_server.Util.{Handler}

-- The map of a Header
abbrev pub Header : Type 0
Header = GoMap (List String)

-- CreateHeader
abbrev pub create_header : Header
create_header = []

-- basicAuth, for user name and password of ASCII characters
unfoldable pub basic_auth : String → String → String
unfolding codes text_of
basic_auth username password = "Basic " <> text_of (encode (codes (username <> ":" <> password)))

-- WithAuth
unfoldable pub with_auth : String → String → Header → Header
unfolding basic_auth
with_auth username password h = insert "Authorization" (basic_auth username password ∷ []) h

-- WithKeyValue
unfoldable pub with_key_value : String → String → Header → Header
with_key_value key value h = insert key (value ∷ []) h

-- WithJSONContentType
unfoldable pub with_json_content_type : Header → Header
with_json_content_type h = insert "Content-Type" ("application/json" ∷ []) h

-- WithJSONAccept
unfoldable pub with_json_accept : Header → Header
with_json_accept h = insert "Accept" ("application/json" ∷ []) h

-- The loop of setHeader, over the entries in any order; each has a value.
unfoldable pub add_entries : Header → GoMap (List String) → GoMap (List String)
unfolding header_add
add_entries [] h = h
add_entries ((k, v) ∷ entries) h = add_entries entries (header_add k (first_value v) h)

-- setHeader
unfoldable pub set_header : Request → Header → Request
unfolding add_entries basic_auth_of
set_header r entries =
    let header = add_entries entries r.header in
    record r { header = header; basic_auth = basic_auth_of header }

-- What net/url makes of a text.
pub record Url : Type 0 where
  pub text : String
  pub path : String
  pub host : String
  pub query : GoMap (List String)

abbrev pub NetUrl : Type 0
NetUrl = String → Result Url

-- A request without a header.
abbrev pub new_request : String → Url → Body → Request
new_request method url body = record {
  method = method;
  url = url.text;
  path = url.path;
  url_host = url.host;
  host = url.host;
  query = url.query;
  header = [];
  body = body;
  vars = [];
  basic_auth = none;
}

-- The result of a function that builds a request: an error of net/url fails the test, or panics.
abbrev pub Created : Type 0
Created = Result Request

module _ (parse : NetUrl) where
  -- CreateOutgoingRequest, with the address of the test server
  unfoldable pub create_outgoing_request : String → String → String → Header → String → Created
  unfolding set_header
  create_outgoing_request server method path header body = parse (server <> path) >>= λ url.
      ok (set_header (new_request method url (unread body)) header)

  -- CreateIncomingErrorReadingBodyRequest
  unfoldable pub create_incoming_error_reading_body_request :
      String → String → String → Header → Created
  unfolding set_header
  create_incoming_error_reading_body_request server method path header =
      parse (server <> path) >>= λ url.
      ok (set_header (new_request method url (broken "error reading bytes")) header)

  -- CreateIncomingRequest
  unfoldable pub create_incoming_request : String → String → Header → String → Created
  unfolding set_header
  create_incoming_request method path header body = parse ("http://localhost/" <> path) >>= λ url.
      ok (set_header (new_request method url (unread body)) header)

-- Response of package net/http
pub record HttpResponse : Type 0 where
  pub status_code : ℕ
  pub header : List (String × String)
  pub body : Body

-- ResponseRecorder.Result: the status is 200 if none was sent.
abbrev pub sent_status : Option ℕ → ℕ
sent_status none = 200
sent_status (some code) = code

abbrev pub result_of : Writer → HttpResponse
result_of w = record { status_code = sent_status w.status; header = w.header; body = unread w.body }

-- callAssertResponse: what assertResponse is called with
unfoldable pub call_assert_response : HttpResponse → Result (HttpResponse × String)
unfolding read_all
call_assert_response response = (read_all response.body).0 >>= λ text. ok (response, text)

-- AssertHandlerFunc, with the state of the handler
unfoldable pub assert_handler_func :
    {S : Type 0} → Request → Handler S → S → Result (HttpResponse × String) × S
unfolding call_assert_response
assert_handler_func request handler_func s =
    let (w, s') = handler_func request fresh s in (call_assert_response (result_of w), s')

-- AssertResponseOfRequestCall, over the call of the test server
unfoldable pub assert_response_of_request_call :
    (Request → Result HttpResponse) → Request → Result (HttpResponse × String)
unfolding call_assert_response
assert_response_of_request_call call request = call request >>= call_assert_response

-- AssertResponseStatusOfRequestCall: whether assert.Equal holds
unfoldable pub assert_response_status_of_request_call :
    (Request → Result HttpResponse) → Request → ℕ → Result Bool
assert_response_status_of_request_call call request expected =
    call request >>= λ response. ok (eqb expected response.status_code)

-- RunAndCheckCoverage, with what m.Run returns; the package and the threshold are not used any more.
abbrev pub run_and_check_coverage : {F : Type 0} → String → ℕ → F → ℕ
run_and_check_coverage test_package code threshold = code

abbrev pub letter_bytes : String
letter_bytes = "abcdefghijklmnopqrstuvwxyzABCDEFGHIJKLMNOPQRSTUVWXYZ"

-- RandString, with the numbers that rand.Int63 returns, one for each letter
unfoldable pub rand_string : List ℕ → String
rand_string [] = ""
rand_string (n ∷ numbers) =
    String.◌∷◌ (String.char_at letter_bytes (n % String.len letter_bytes)) (rand_string numbers)
