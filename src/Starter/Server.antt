-- ===== src/Starter/Server.antt =====
-- SetupRouter of mockgo/starter/starter.go: what the server works on, and the packages that it uses.
use mockgo_server.Prelude.{ℕ, String, Bool, List, Option, GoMap}
use mockgo_server.Http.{Request}
use mockgo_server.Http.Writer.{Writer}
use mockgo_server.Kvstore.{Storage}
use mockgo_server.Kvstore.Handlers.{Json}
use mockgo_server.Matches.{Match, Mismatch}
use mockgo_server.Matches.Handlers.{MatchesJson}
use mockgo_server.Mock.Model.{Endpoint}
use mockgo_server.Mock.Tree.{Node}
use mockgo_server.Mock.Select.{Services}
use mockgo_server.Mock.Render.{Engine}
use mockgo_server.Mock.Load.{Disk}
use mockgo_server.Mock.Routes.{State}

-- What is used of package mux: whether a path is clean, that is without `//`, `.` and `..`; the variables of a path
-- template, where it matches a request's path; and the answer of mux itself where no route gets the request: a redirect
-- to the clean path, or that no route or none for the method was found.
pub record Mux : Type 0 where
  pub is_clean : String → Bool
  pub path_match : String → Request → Option (GoMap String)
  pub no_route : Request → Writer → Writer

-- The stores, and what is used of the other packages. json.Marshal reads the matches behind the pointers.
pub record Program (R T : Type 0) : Type 1 where
  pub services : Services R
  pub storage : Storage
  pub engine : Engine T storage.State
  pub disk : Disk R T
  pub match_json : List Match → MatchesJson ℕ Mismatch
  pub kv_json : Json
  pub mux : Mux
  pub metrics : services.Counters → Writer → Writer

module _ {R T : Type 0} (program : Program R T) where
  -- What all requests share: the tree of the endpoints, and the state of the mock route, of which the match
  -- store and the key-value store are a part.
  pub record Server : Type 0 where
    pub tree : Node (Endpoint R T)
    pub mock : State program.services program.engine

  -- The server while it answers a request; the connection is closed without an answer if a handler panics.
  pub record Session : Type 0 where
    pub server : Server
    pub aborted : Bool
