-- ===== src/Http.antt =====
-- What the handlers use of Go's net/http: the incoming request, its header, its body, which can be
-- read once, and the response writer.
pub mod Writer
pub mod Base64
pub mod BasicAuth
use mockgo_server.Prelude.{
  ℕ, ◌-◌, ◌+◌, String, Bool, true, false, not, ◌&&◌, ◌||◌, List, [], ◌∷◌, Option, none, some, ◌≡◌,
  refl, eqb, leb, all, if◌then◌else◌, codes, GoMap, lookup, or_zero, Result, ok, err,
}

-- The text of a body that is still to be read, or the error that reading it ends in. A request that
-- the server hands to a handler always has a body.
pub data Body : Type 0 where
  unread : String → Body
  broken : String → Body

-- io.ReadAll: what is left of the body, and the body afterwards
unfoldable pub read_all : Body → Result String × Body
read_all (unread s) = (ok s, unread "")
read_all (broken e) = (err e, broken e)

pub record Request : Type 0 where
  pub method : String
  -- URL.String(), URL.Path and URL.Host
  pub url : String
  pub path : String
  pub url_host : String
  pub host : String
  -- URL.Query(): each key with its values, of which there is at least one
  pub query : GoMap (List String)
  pub header : GoMap (List String)
  pub body : Body
  -- mux.Vars(request): the path parameters of the route that was taken
  pub vars : GoMap String
  -- Request.BasicAuth(): user name and password, if the header is well formed
  pub basic_auth : Option (String × String)

-- `v[0]`, and "" where there is no value
abbrev pub first_value : List String → String
first_value [] = ""
first_value (v ∷ vs) = v

is_lower : ℕ → Bool
is_lower c = leb b'a' c && leb c b'z'

is_upper : ℕ → Bool
is_upper c = leb b'A' c && leb c b'Z'

-- The bytes that a header's name may have.
is_token : ℕ → Bool
unfolding is_lower is_upper
is_token c =
    is_lower c
    || is_upper c
    || (leb b'0' c && leb c b'9')
    || eqb c b'!'
    || (leb b'#' c && leb c 39)
    || eqb c b'*'
    || eqb c b'+'
    || eqb c b'-'
    || eqb c b'.'
    || (leb b'^' c && leb c b'`')
    || eqb c b'|'
    || eqb c b'~'

-- The first letter, and each letter behind a dash, is made upper case, the others lower case.
canonical_from : Bool → List ℕ → List ℕ
unfolding is_lower is_upper
canonical_from start [] = []
canonical_from start (c ∷ cs) =
    (if start && is_lower c then c - 32 else if not start && is_upper c then c + 32 else c)
    ∷ canonical_from (eqb c b'-') cs

-- http.CanonicalHeaderKey: a name with other bytes is left as it is
unfoldable pub canonical : String → List ℕ
unfolding canonical_from is_token
canonical key = if all is_token (codes key) then canonical_from true (codes key) else codes key

same_codes : List ℕ → List ℕ → Bool
same_codes [] [] = true
same_codes (a ∷ as') (b ∷ bs) = eqb a b && same_codes as' bs
same_codes _ _ = false

-- A header whose names the server has made canonical holds `key` under its canonical form.
unfoldable pub same_name : List ℕ → String → Bool
unfolding same_codes
same_name name j = same_codes name (codes j)

-- Header.Get(key): the first value under the canonical form of the key, "" if there is none
unfoldable pub header_get : GoMap (List String) → String → String
unfolding same_name canonical
header_get [] key = ""
header_get ((j, vs) ∷ h) key =
    if same_name (canonical key) j then first_value vs else header_get h key

-- Values.Get(key) of a query
unfoldable pub query_get : GoMap (List String) → String → String
query_get q key = first_value (or_zero [] (lookup key q))

-- `vars[name]` of mux.Vars(request), "" where the route has no such parameter
abbrev pub path_var : Request → String → String
path_var r name = or_zero "" (lookup name r.vars)

header_demo :
    header_get (("Accept", "a" ∷ []) ∷ ("Content-Type", "b" ∷ "c" ∷ []) ∷ []) "content-TYPE" ≡ "b"
unfolding header_get codes
header_demo = refl
