-- ===== src/Testutil/Credentials.antt =====
-- A request with the credentials of the API, as mockgo/testutil/http.go builds it, at BasicAuthMiddleware.
use text.Mathlib.TextLemmas.{cons-append, cons≢nil}
use mockgo_server.Prelude.{
  String, ◌==◌, ◌≡◌, ◌≢◌, refl, sym, ◌∙◌, arith, false, true, List, [], ◌∷◌, some, ok, GoMap, All,
  inr, insert, eq_iff, contains_char, codes, IsAscii,
}
use mockgo_server.Http.{header_get, same_name, canonical, Request, first_value}
use mockgo_server.Http.Writer.{Writer}
use mockgo_server.Http.BasicAuth.{header_add, canonical_key, basic_auth_of}
use mockgo_server.Http.BasicAuth.Laws.{IsAbsent, header_get-add_value, IsAbsent-add_value}
use mockgo_server.Util as Util
use mockgo_server.Util.{Handler, basic_auth_middleware}
use mockgo_server.Util.Auth.{basic_auth_middleware_accepts}
use mockgo_server.Util.Credentials.{basic_auth-parsed}
use mockgo_server.Testutil.{
  Header, basic_auth, with_auth, add_entries, set_header, NetUrl, create_incoming_request,
}

-- An entry that does not set the name `Authorization`, in any spelling.
abbrev pub IsOther : String × List String → Type 0
IsOther e = same_name (canonical "Authorization") (canonical_key e.0) ≡ false

same_authorization : same_name (canonical "Authorization") (canonical_key "Authorization") ≡ true
unfolding same_name canonical_key canonical codes
same_authorization = refl

other-ne : (e : String × List String) → IsOther e → (e.0 == "Authorization") ≡ false
other-ne (key, values) other = ground (arith, same_authorization, eq_iff key "Authorization")

insert-nil : (key : String) (value : List String) → insert key value [] ≡ (key, value) ∷ []
unfolding insert
insert-nil key value = refl

insert-other :
    (value : List String) (e : String × List String) (h : GoMap (List String))
    → IsOther e
    → insert "Authorization" value (e ∷ h) ≡ e ∷ insert "Authorization" value h
unfolding insert
insert-other value (k, vs) h other = ground (arith, other-ne (k, vs) other)

header_get-add_entries :
    (value : String) (h acc : GoMap (List String))
    → All IsOther h
    → IsAbsent "Authorization" acc
    → header_get (add_entries (insert "Authorization" (value ∷ []) h) acc) "Authorization" ≡ value
unfolding add_entries header_add
header_get-add_entries value [] acc other absent = rw (insert-nil "Authorization" (value ∷ [])) (
    header_get-add_value "Authorization" (canonical_key "Authorization") value acc
      same_authorization absent)
header_get-add_entries value ((k, vs) ∷ h) acc (other, others) absent =
    rw (insert-other (value ∷ []) (k, vs) h other) (
      header_get-add_entries value h (header_add k (first_value vs) acc) others
        (IsAbsent-add_value "Authorization" (canonical_key k) (first_value vs) acc other absent))

basic_auth-ne-nil : (username password : String) → basic_auth username password ≢ ""
unfolding basic_auth
basic_auth-ne-nil username password h = cons≢nil (sym (cons-append _ _ _) ∙ h)

same_basic_auth :
    (username password : String) → Util.basic_auth username password ≡ basic_auth username password
unfolding basic_auth Util.basic_auth
same_basic_auth username password = refl

module _ (username password : String) (ascii_name : IsAscii username)
    (ascii_password : IsAscii password) (no_colon : contains_char username b':' ≡ false)
    (h : Header) (others : All IsOther h) where
  basic_auth_of-with_auth :
      basic_auth_of (add_entries (with_auth username password h) []) ≡ some (username, password)
  unfolding basic_auth_of with_auth
  basic_auth_of-with_auth =
      rw (header_get-add_entries (basic_auth username password) h [] others tt) (
        ground (
          arith,
          eq_iff (basic_auth username password) "",
          basic_auth-ne-nil username password,
          same_basic_auth username password,
          (basic_auth-parsed username password ascii_name ascii_password).1 no_colon,
        ))

  -- A request that CreateIncomingRequest builds with these credentials, and without another entry for the name
  -- `Authorization`, passes BasicAuthMiddleware of an API with these credentials and reaches the wrapped handler,
  -- where the user name and the password are ASCII and the user name has no colon.
  basic_auth_middleware-create_incoming_request :
      {S : Type 0} (parse : NetUrl) (method path body prefix : String) (r : Request)
      (next : Handler S) (w : Writer) (s : S)
      → create_incoming_request parse method path (with_auth username password h) body ≡ ok r
      → basic_auth_middleware prefix username password next r w s ≡ next r w s
  unfolding create_incoming_request set_header
  basic_auth_middleware-create_incoming_request parse method path body prefix r next w s made =
      basic_auth_middleware_accepts username password next prefix r w s
        (inr (ground (arith, made, basic_auth_of-with_auth)))
