-- ===== src/Mock/Model.antt =====
-- mockgo/mock/model.go: the configuration of the endpoints. `R` is the type of a compiled regular
-- expression (package regexp), `T` that of a parsed template (package text/template).
use mockgo_server.Prelude.{String, List, Option, GoMap}
use mockgo_server.Prelude.Int.{ℤ}

pub record MatchRequest (R : Type 0) : Type 0 where
  pub host : String
  pub method : String
  pub path : String
  pub query : GoMap String
  pub headers : GoMap String
  pub body : String
  pub body_regexp : Option R

-- The template of a response: the three that are parsed under the names of its parts.
pub record Templates (T : Type 0) : Type 0 where
  pub body : T
  pub status : T
  pub header : T

pub record Response (T : Type 0) : Type 0 where
  pub template : Option (Templates T)
  pub status_code : String
  pub headers : String
  pub body : String
  pub body_filename : String

-- `mock` points back at the mock file's entry; its name is all that is read of it.
pub record Endpoint (R T : Type 0) : Type 0 where
  pub id : String
  pub mock : Option String
  pub prio : ℤ
  pub request : MatchRequest R
  pub response : Response T

pub record Mock (R T : Type 0) : Type 0 where
  pub name : String
  pub endpoints : List (Endpoint R T)
