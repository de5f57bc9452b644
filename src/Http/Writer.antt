-- ===== src/Http/Writer.antt =====
-- http.ResponseWriter and http.Error. `status` is set by the first WriteHeader, or by the first
-- Write, which sends 200; a later one is ignored. `fault` is the error of a broken connection.
use mockgo_server.Prelude.{
  ◌≤◌, Bool, false, ltb, eqb, ◌||◌, ℕ, String, ◌≡◌, refl, ◌++◌, List, [], ◌∷◌, Option, none, some,
  if◌then◌else◌, Result, ok, err, arith,
}
use mockgo_server.Http.{canonical, same_name}
use Prim.Native.String
use text.Mathlib.TextLemmas.{nil-append}

pub record Writer : Type 0 where
  pub header : List (String × String)
  pub status : Option ℕ
  pub body : String
  pub fault : Option String

-- writer.Header().Add(key, val)
unfoldable pub add_header : String → String → Writer → Writer
add_header key val w = record w { header = w.header ++ (key, val) ∷ [] }

without : String → List (String × String) → List (String × String)
without key [] = []
without key ((j, v) ∷ h) =
    let rest = without key h in if same_name (canonical key) j then rest else (j, v) ∷ rest

-- writer.Header().Set(key, val)
unfoldable pub set_header : String → String → Writer → Writer
unfolding without
set_header key val w = record w { header = without key w.header ++ (key, val) ∷ [] }

first_status : Option ℕ → ℕ → Option ℕ
first_status none code = some code
first_status (some old) code = some old

-- writer.WriteHeader(code), for a code that it accepts
unfoldable pub write_header : ℕ → Writer → Writer
unfolding first_status
write_header code w = record w { status = first_status w.status code }

-- The statuses whose responses have no body.
has_no_body : Option ℕ → Bool
has_no_body none = false
has_no_body (some code) = ltb code 200 || eqb code 204 || eqb code 304

append_body : Option String → String → Writer → Result (Unit {0}) × Writer
unfolding has_no_body
append_body none s w =
    if has_no_body w.status
    then (err "http: request method or response status code does not allow body", w)
    else (ok tt, record w { body = String.◌++◌ w.body s })
append_body (some e) s w = (err e, w)

-- io.WriteString(writer, s)
unfoldable pub write : String → Writer → Result (Unit {0}) × Writer
unfolding append_body write_header
write s w = append_body w.fault s (write_header 200 w)

-- http.Error(writer, message, code)
unfoldable pub http_error : String → ℕ → Writer → Writer
unfolding set_header write_header write
http_error message code w =
    (write (String.◌++◌ message "\n") (
      write_header code (
        set_header "X-Content-Type-Options" "nosniff"
          (set_header "Content-Type" "text/plain; charset=utf-8" w)))).1

-- The writer that a handler is given.
abbrev pub fresh : Writer
fresh = record { header = []; status = none; body = ""; fault = none }

error_demo : (http_error "no" 404 fresh).body ≡ "no\n"
unfolding http_error
error_demo = refl

-- The status of a response to which `code` is sent: the first one stays.
abbrev pub status_after : ℕ → Writer → Option ℕ
status_after code w = elim w.status [ none ↦ some code | some old ↦ some old ]

pub status-write_header :
    (code : ℕ) (w : Writer) → (write_header code w).status ≡ status_after code w
unfolding write_header
status-write_header code w = ground arith

pub status-write : (s : String) (w : Writer) → (write s w).1.status ≡ status_after 200 w
unfolding write write_header append_body
status-write s w = ground arith

pub status-http_error :
    (message : String) (code : ℕ) (w : Writer)
    → (http_error message code w).status ≡ status_after code w
unfolding http_error
status-http_error message code w = ground arith

-- A writer to which nothing was sent yet.
abbrev pub open_writer : List (String × String) → Writer
open_writer header = record { header = header; status = none; body = ""; fault = none }

pub write_header-write :
    (code : ℕ) (body : String) (header : List (String × String))
    → 200 ≤ code
    → (write body (write_header code (open_writer header))).1 ≡ record {
      header = header;
      status = some code;
      body = if eqb code 204 || eqb code 304 then "" else body;
      fault = none;
    }
unfolding write write_header append_body has_no_body
write_header-write code body header low = ground (arith, nil-append body)
