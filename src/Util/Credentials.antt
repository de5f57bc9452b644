-- ===== src/Util/Credentials.antt =====
-- BasicAuth of mockgo/util/http.go against Request.BasicAuth.
use mockgo_server.Prelude.{
  ◌<◌, String, ◌<>◌, ◌≡◌, refl, sym, ◌↔◌, ◌∙◌, arith, false, ◌++◌, All-mono, All-append, some,
  codes, text_of, IsAscii, codes-append, codes-text_of, text_of-codes, contains_char,
}
use mockgo_server.Http.Base64.{encode, IsBytes, encode-IsAscii, decode-encode}
use mockgo_server.Http.BasicAuth.{cut, parse_basic_auth}
use mockgo_server.Http.BasicAuth.Laws.{cut-between, cut-no_colon}
use mockgo_server.Util.{basic_auth}

-- What is read of the header is the text before its encoding, cut at its first colon.
parse_basic_auth-basic_auth :
    (username password : String)
    → IsAscii (username <> ":" <> password)
    → parse_basic_auth (basic_auth username password) ≡ cut (username <> ":" <> password) b':'
unfolding parse_basic_auth basic_auth
parse_basic_auth-basic_auth username password ascii =
    let text = username <> ":" <> password in
    let bytes : IsBytes (codes text) = All-mono (codes text) (λ n h. omega arith) ascii in
    rw
      (
        codes-append "Basic " (text_of (encode (codes text))),
        codes-text_of (encode (codes text)) (encode-IsAscii (codes text) bytes),
      )
      (rw (decode-encode (codes text) bytes, text_of-codes text ascii) refl)

module _ (username password : String) (ascii_name : IsAscii username)
    (ascii_password : IsAscii password) where
  IsAscii-pair : IsAscii (username <> ":" <> password)
  unfolding codes
  IsAscii-pair =
      rw (codes-append username (":" <> password), codes-append ":" password)
        (All-append (λ n. n < 128) (codes username) (codes ":" ++ codes password) ascii_name
          (omega arith, ascii_password))

  -- The header that BasicAuth makes of a user name and a password of ASCII characters is read back as these two exactly
  -- when the user name has no colon.
  pub basic_auth-parsed :
      (parse_basic_auth (basic_auth username password) ≡ some (username, password))
      ↔ (contains_char username b':' ≡ false)
  basic_auth-parsed =
      let parsed = parse_basic_auth-basic_auth username password IsAscii-pair in
      (
        λ e. cut-no_colon (username <> ":" <> password) username password (sym parsed ∙ e),
        λ h. parsed ∙ cut-between username password h,
      )
