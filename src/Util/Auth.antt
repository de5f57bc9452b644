-- ===== src/Util/Auth.antt =====
-- BasicAuthMiddleware of mockgo/util/http.go: when the wrapped handler runs.
use mockgo_server.Prelude.{
  String, ◌==◌, ◌&&◌, Bool-cases, inl, inr, ◌≡◌, ◌≢◌, refl, ap, eq_iff, true, false, ◌⊎◌, Option,
  none, some, arith, has_suffix, has_suffix-append, ◌<>◌,
}
use mockgo_server.Http.{Request}
use mockgo_server.Http.Writer.{Writer, status_after, status-http_error}
use mockgo_server.Util.{Handler, authorize, auth_failed, basic_auth_middleware, is_protected}

module _ {S : Type 0} (username password : String) (next : Handler S) where
  authorize_accepts :
      (found : Option (String × String)) (r : Request) (w : Writer) (s : S)
      → found ≡ some (username, password)
      → authorize username password found next r w s ≡ next r w s
  unfolding authorize
  authorize_accepts none r w s h = cc
  authorize_accepts (some (u, p)) r w s h = ground (arith, eq_iff u username, eq_iff p password)

  authorize_refuses :
      (found : Option (String × String)) (r : Request) (w : Writer) (s : S)
      → found ≢ some (username, password)
      → ((authorize username password found next r w s).1 ≡ s)
        × ((authorize username password found next r w s).0.status ≡ status_after 401 w)
  unfolding authorize
  authorize_refuses none r w s h = (refl, status-http_error _ 401 w)
  authorize_refuses (some (u, p)) r w s h =
      ground (arith, eq_iff u username, eq_iff p password, status-http_error (auth_failed u) 401 w)

  -- A request outside the protected paths, and one with exactly the expected credentials, reaches the
  -- wrapped handler, with the request, the writer and the state as they came.
  pub basic_auth_middleware_accepts :
      (prefix : String) (r : Request) (w : Writer) (s : S)
      → (is_protected prefix r ≡ false) ⊎ (r.basic_auth ≡ some (username, password))
      → basic_auth_middleware prefix username password next r w s ≡ next r w s
  unfolding basic_auth_middleware
  basic_auth_middleware_accepts prefix r w s h =
      ground (arith, authorize_accepts r.basic_auth r w s)

  -- A request to a protected path without credentials, or with others than the expected ones, leaves
  -- the state as it is and is answered 401, unless a status was sent before.
  pub basic_auth_middleware_refuses :
      (prefix : String) (r : Request) (w : Writer) (s : S)
      → is_protected prefix r ≡ true
      → r.basic_auth ≢ some (username, password)
      → ((basic_auth_middleware prefix username password next r w s).1 ≡ s)
        × ((basic_auth_middleware prefix username password next r w s).0.status
            ≡ status_after 401 w)
  unfolding basic_auth_middleware
  basic_auth_middleware_refuses prefix r w s h k =
      ground (arith, authorize_refuses r.basic_auth r w s)

module _ {S : Type 0} (P : S → Type 0) (next : Handler S) (r : Request)
    (kept : (w : Writer) (s : S) → P s → P (next r w s).1) where
  authorize_keeps :
      (username password : String) (found : Option (String × String)) (w : Writer) (s : S)
      → P s
      → P (authorize username password found next r w s).1
  unfolding authorize
  authorize_keeps username password none w s h = h
  authorize_keeps username password (some (u, p)) w s h =
      elim (Bool-cases (u == username && p == password)) [
        | inl same ↦ rw same (kept w s h)
        | inr other' ↦ rw other' h
      ]

  -- What the wrapped handler keeps is kept by the middleware around it.
  pub basic_auth_middleware_keeps :
      (prefix username password : String) (w : Writer) (s : S)
      → P s
      → P (basic_auth_middleware prefix username password next r w s).1
  unfolding basic_auth_middleware
  basic_auth_middleware_keeps prefix username password w s h =
      elim (Bool-cases (is_protected prefix r)) [
        | inl guarded ↦ rw guarded (authorize_keeps username password r.basic_auth w s h)
        | inr open' ↦ rw open' (kept w s h)
      ]

-- Whatever the prefix and the credentials, a request whose path ends in "/health" reaches the wrapped
-- handler: the check is by the path's end, and not by the health route.
basic_auth_middleware_health :
    {S : Type 0} (prefix username password : String) (next : Handler S) (r : Request) (w : Writer)
    (s : S) (front : String)
    → r.path ≡ front <> "/health"
    → basic_auth_middleware prefix username password next r w s ≡ next r w s
unfolding basic_auth_middleware is_protected
basic_auth_middleware_health prefix username password next r w s front h =
    ground (arith, has_suffix-append front "/health", ap (λ (p : String). has_suffix p "/health") h)
