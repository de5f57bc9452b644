-- ===== src/Matches.antt =====
-- mockgo/matches/matchstore.go: the requests that are recorded, and the interface Matchstore.
pub mod Inmemory
pub mod Handlers
mod Tests
use mockgo_server.Prelude.{ℕ, String, List, Option, GoMap, Result}
use mockgo_server.Prelude.Int.{ℤ}

pub record ActualRequest : Type 0 where
  pub method : String
  pub url : String
  pub header : GoMap (List String)
  pub host : String

pub record ActualResponse : Type 0 where
  pub status_code : ℤ
  pub header : GoMap (List String)

-- A time stands for the nanoseconds since a fixed instant. The response is a nil pointer until the
-- response has been rendered.
pub record Match : Type 0 where
  pub endpoint_id : String
  pub timestamp : ℕ
  pub actual_request : ActualRequest
  pub actual_response : Option ActualResponse

pub record Mismatch : Type 0 where
  pub mismatch_details : String
  pub timestamp : ℕ
  pub actual_request : ActualRequest

-- The interface Matchstore, over the types of what AddMatch and AddMismatch are handed (`*Match` and
-- `*Mismatch`). An operation returns its result and the state that it leaves, also where it fails.
pub record Matchstore (M N : Type 0) : Type 1 where
  pub State : Type 0
  pub get_matches : String → State → Result (List M) × State
  pub get_matches_count : String → State → Result ℕ × State
  pub get_mismatches : State → Result (List N) × State
  pub add_match : String → M → State → Result (Unit {0}) × State
  pub add_mismatch : N → State → Result (Unit {0}) × State
  pub get_mismatches_count : State → Result ℕ × State
  pub delete_matches : String → State → Result (Unit {0}) × State
  pub delete_mismatches : State → Result (Unit {0}) × State
  pub shutdown : State → Result (Unit {0}) × State
