-- ===== src/Http/BasicAuth.antt =====
-- Request.BasicAuth of Go's net/http, and Header.Add. The bytes of a header's value are those of an ASCII
-- text.
pub mod Laws
use Prim.Native.Char.{code}
use Prim.Native.String
use mockgo_server.Prelude.{
  ℕ, ◌+◌, String, ◌==◌, ◌<>◌, Bool, true, ◌&&◌, List, [], ◌∷◌, ◌++◌, map, all, Option, none, some,
  GoMap, eqb, if◌then◌else◌, codes, text_of,
}
use mockgo_server.Http.{is_upper, is_token, same_codes, canonical, header_get}
use mockgo_server.Http.Base64.{decode}

-- `string(c) + before`
push_front : String → Option (String × String) → Option (String × String)
push_front c none = none
push_front c (some (before, after)) = some (c <> before, after)

-- strings.Cut(s, sep) for a separator of one character
unfoldable pub cut : String → ℕ → Option (String × String)
unfolding push_front
cut String.[] sep = none
cut (String.◌∷◌ c s) sep =
    let rest = cut s sep in
    if eqb (code c) sep then some ("", s) else push_front (String.◌∷◌ c "") rest

lower : ℕ → ℕ
unfolding is_upper
lower c = if is_upper c then c + 32 else c

-- What stands behind the word `Basic` in any case and a space.
behind_basic : List ℕ → Option (List ℕ)
unfolding lower same_codes codes
behind_basic (a ∷ b ∷ c ∷ d ∷ e ∷ f ∷ l) =
    if same_codes (map lower (a ∷ b ∷ c ∷ d ∷ e ∷ f ∷ [])) (codes "basic ") then some l else none
behind_basic _ = none

cut_decoded : Option (List ℕ) → Option (String × String)
unfolding cut text_of
cut_decoded none = none
cut_decoded (some l) = cut (text_of l) b':'

decode_behind : Option (List ℕ) → Option (String × String)
unfolding cut_decoded
decode_behind none = none
decode_behind (some l) = cut_decoded (decode l)

-- parseBasicAuth
unfoldable pub parse_basic_auth : String → Option (String × String)
unfolding behind_basic decode_behind
parse_basic_auth auth = decode_behind (behind_basic (codes auth))

-- Request.BasicAuth of a request with this header
unfoldable pub basic_auth_of : GoMap (List String) → Option (String × String)
unfolding header_get parse_basic_auth
basic_auth_of h =
    let auth = header_get h "Authorization" in if auth == "" then none else parse_basic_auth auth

-- http.CanonicalHeaderKey as a text
unfoldable pub canonical_key : String → String
unfolding canonical is_token text_of
canonical_key key = if all is_token (codes key) then text_of (canonical key) else key

pub add_value : String → String → GoMap (List String) → GoMap (List String)
add_value key val [] = (key, val ∷ []) ∷ []
add_value key val ((j, vs) ∷ h) =
    let rest = add_value key val h in if j == key then (j, vs ++ val ∷ []) ∷ h else (j, vs) ∷ rest

-- Header.Add(key, val)
unfoldable pub header_add : String → String → GoMap (List String) → GoMap (List String)
unfolding canonical_key add_value
header_add key val h = add_value (canonical_key key) val h
