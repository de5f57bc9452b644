-- ===== src/Util.antt =====
-- mockgo/util/http.go: the middlewares around the handlers, and the writing of an entity. A handler
-- takes the request, the writer and the state of what it works on, and returns both anew.
pub mod Auth
pub mod Credentials
pub mod Logging
pub mod Wrapped
mod Tests
use text.Mathlib.Text.{starts_with}
use mockgo_server.Prelude.{
  String, ◌==◌, Bool, not, ◌&&◌, List, [], ◌∷◌, Option, none, some, if◌then◌else◌, Result, ok, err,
  has_suffix, ◌<>◌, codes, text_of,
}
use mockgo_server.Http.{Request, header_get, path_var}
use mockgo_server.Http.Writer.{Writer, write, http_error}
use mockgo_server.Http.Base64.{encode}

abbrev pub Handler : Type 0 → Type 0
Handler S = Request → Writer → S → Writer × S

-- The test of BasicAuthMiddleware on the path.
unfoldable pub is_protected : String → Request → Bool
unfolding has_suffix
is_protected prefix r = starts_with r.path prefix && not (has_suffix r.path "/health")

abbrev pub auth_failed : String → String
auth_failed username = "Authorization with username '" <> username <> "' failed. "

module _ {S : Type 0} where
  -- The branch of BasicAuthMiddleware behind `r.BasicAuth()`.
  authorize : String → String → Option (String × String) → Handler S → Handler S
  authorize expected_username expected_password none next r w s =
      (http_error "Unauthorized" 401 w, s)
  authorize expected_username expected_password (some (username, password)) next r w s =
      if username == expected_username && password == expected_password
      then next r w s
      else (http_error (auth_failed username) 401 w, s)

  -- BasicAuthMiddleware
  unfoldable pub basic_auth_middleware : String → String → String → Handler S → Handler S
  unfolding authorize is_protected
  basic_auth_middleware prefix username password next r w s =
      if is_protected prefix r
      then authorize username password r.basic_auth next r w s
      else next r w s

  -- JSONContentTypeRequest
  unfoldable pub json_content_type_request : Handler S → Handler S
  json_content_type_request impl r w s =
      if header_get r.header "Content-Type" == "application/json" then impl r w s else (
        http_error
            ("wrong request headers: Content-Type must be application/json, but is '"
              <> header_get r.header "Content-Type"
              <> "'")
            415 w,
        s,
      )

  -- JSONAcceptRequest; its message shows the Content-Type
  unfoldable pub json_accept_request : Handler S → Handler S
  json_accept_request impl r w s =
      if header_get r.header "Accept" == "application/json" then impl r w s else (
        http_error
            ("wrong request headers: Accept must be application/json, but is '"
              <> header_get r.header "Content-Type"
              <> "'")
            415 w,
        s,
      )

  -- PathParamRequest
  unfoldable pub path_param_request : List String → Handler S → Handler S
  path_param_request [] impl r w s = impl r w s
  path_param_request (expected ∷ more) impl r w s =
      if path_var r expected == ""
      then (http_error ("url path param '" <> expected <> "' is not set") 404 w, s)
      else path_param_request more impl r w s

-- A route of the router: its name, its path, its method, and its handler.
pub record Route (S : Type 0) : Type 0 where
  pub name : String
  pub path : String
  pub method : String
  pub handler : Handler S

-- What is handed to WriteEntity: a Go string, or any other value with what json.Marshal makes of it.
pub data Entity : Type 0 where
  raw : String → Entity
  other : Result String → Entity

-- The end of WriteEntity: `io.WriteString` and its error.
write_string : Result (Unit {0}) × Writer → Writer
write_string (ok _, w) = w
write_string (err e, w) = http_error ("Cannot write response: " <> e) 500 w

-- WriteEntity
unfoldable pub write_entity : Entity → Writer → Writer
unfolding write_string
write_entity (raw s) w = write_string (write s w)
write_entity (other (ok s)) w = write_string (write s w)
write_entity (other (err e)) w = http_error ("Cannot marshall response: " <> e) 500 w

-- BasicAuth, for user name and password of ASCII characters
unfoldable pub basic_auth : String → String → String
unfolding codes text_of
basic_auth username password = "Basic " <> text_of (encode (codes (username <> ":" <> password)))
