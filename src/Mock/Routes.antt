-- ===== src/Mock/Routes.antt =====
-- AddRoutes of mockgo/mock/requestHandler.go: the matcher of the mock route and its handler, which the
-- router runs one after the other for a request, and the variables that both share with all requests.
pub mod Interleaved
pub mod Path
pub mod Outcomes
pub mod Recorded
pub mod Journal
pub mod Overlapping
pub mod Values
mod Tests
use text.Mathlib.Text.{starts_with}
use mockgo_server.Prelude.{ℕ, String, Bool, true, false, List, Option, none, some, GoMap}
use mockgo_server.Http.{Request}
use mockgo_server.Http.Writer.{Writer}
use mockgo_server.Mock.Model.{Endpoint}
use mockgo_server.Mock.Tree.{Node}
use mockgo_server.Mock.Select.{Services, World, Choice, match_request_to_endpoint}
use mockgo_server.Mock.Render.{Engine, Memory, Reply, answered, panicked, render_response}

-- `endPoint` and `match`, `requestPathParam` and `queryParams`: they are declared outside the two
-- functions, and so there is one of each for all requests.
pub record Shared (R T : Type 0) : Type 0 where
  pub choice : Option (Endpoint R T × ℕ)
  pub path_params : GoMap String
  pub query_params : GoMap String

module _ {R T K : Type 0} (services : Services R) (engine : Engine T K) where
  pub record State : Type 0 where
    pub shared : Shared R T
    pub world : World services
    pub kv : K

  is_chosen : Option (Endpoint R T × ℕ) → Bool
  is_chosen none = false
  is_chosen (some c) = true

  -- What the matcher writes, its result, and the request with what is left of its body.
  take_choice : Choice T services × GoMap String × GoMap String → State → Bool × Request × State
  unfolding is_chosen
  take_choice ((choice, r', w'), path_params, query_params) s = (
    is_chosen choice,
    r',
    record s {
      shared = record { choice = choice; path_params = path_params; query_params = query_params };
      world = w';
    },
  )

  -- The function that is handed to MatcherFunc.
  unfoldable pub matcher :
      String → ℕ → Node (Endpoint R T) → Request → State → Bool × Request × State
  unfolding take_choice
  matcher path_prefix now tree r s = elim (starts_with r.path path_prefix) [
    | true ↦ (false, r, s)
    | false ↦ take_choice (match_request_to_endpoint services now tree r s.world) s
  ]

  pub memory : State → Memory K
  memory s = record { heap = s.world.heap; kv = s.kv }

  pub after_reply : State → Reply (Memory K) → Reply State
  after_reply s (answered w m) =
      answered w (record s { world = record s.world { heap = m.heap }; kv = m.kv })
  after_reply s (panicked m) =
      panicked (record s { world = record s.world { heap = m.heap }; kv = m.kv })

  handle_choice : Request → Writer → State → Option (Endpoint R T × ℕ) → Reply State
  unfolding memory after_reply
  handle_choice r w s none = panicked s
  handle_choice r w s (some (e, pointer)) =
      after_reply s
        (render_response engine r e pointer s.shared.path_params s.shared.query_params w (memory s))

  -- The function that is handed to HandlerFunc, on the variables as they are when it runs; it panics on
  -- a nil endpoint.
  unfoldable pub handler : Request → Writer → State → Reply State
  unfolding handle_choice
  handler r w s = handle_choice r w s s.shared.choice
