-- ===== src/Mock/Routes/Interleaved.antt =====
-- Requests that are served one after the other, and requests whose matcher and handler interleave, in
-- AddRoutes of mockgo/mock/requestHandler.go.
use text.Mathlib.Text.{starts_with}
use mockgo_server.Prelude.{◌∙◌, ap, ℕ, String, ◌≡◌, refl, true, false, Option, some, GoMap}
use mockgo_server.Http.{Request}
use mockgo_server.Http.Writer.{Writer}
use mockgo_server.Mock.Model.{Endpoint}
use mockgo_server.Mock.Tree.{Node}
use mockgo_server.Mock.Select.{Services, match_request_to_endpoint}
use mockgo_server.Mock.Render.{Reply, Engine, render_response}
use mockgo_server.Mock.Routes.{
  handle_choice, is_chosen, take_choice, State, matcher, handler, memory, after_reply,
}

module _ {R T K : Type 0} (services : Services R) (engine : Engine T K) (path_prefix : String)
    (now : ℕ) (tree : Node (Endpoint R T)) where
  -- The result of the choice for a request in a state.
  abbrev pub chosen : Request → State services engine → Option (Endpoint R T × ℕ)
  chosen r s = (match_request_to_endpoint services now tree r s.world).0.0

  -- The state after the matcher ran for a request.
  abbrev pub after : Request → State services engine → State services engine
  after r s = (matcher services engine path_prefix now tree r s).2

  -- What the handler does for a request with an endpoint of another choice.
  abbrev pub served :
      Request
      → Writer
      → Endpoint R T
      → ℕ
      → GoMap String
      → GoMap String
      → State services engine
      → Reply (State services engine)
  served r w e pointer path_params query_params s =
      after_reply services engine s
        (render_response engine r e pointer path_params query_params w (memory services engine s))

  matcher_lem :
      (r : Request) (s : State services engine)
      → starts_with r.path path_prefix ≡ false
      → matcher services engine path_prefix now tree r s
        ≡ take_choice services engine (match_request_to_endpoint services now tree r s.world) s
  unfolding matcher
  matcher_lem r s mock = rw (mock, matcher) refl

  handler_lem :
      (r : Request) (w : Writer) (s : State services engine) (e : Endpoint R T) (pointer : ℕ)
      → s.shared.choice ≡ some (e, pointer)
      → handler services engine r w s
        ≡ served r w e pointer s.shared.path_params s.shared.query_params s
  unfolding handler handle_choice
  handler_lem r w s e pointer h = ap (handle_choice services engine r w s) h

  handler-after :
      (r : Request) (rest : Request) (w : Writer) (s : State services engine) (e : Endpoint R T)
      (pointer : ℕ)
      → starts_with r.path path_prefix ≡ false
      → chosen r s ≡ some (e, pointer)
      → let found = match_request_to_endpoint services now tree r s.world in
        handler services engine rest w (after r s)
        ≡ served rest w e pointer found.1 found.2 (after r s)
  unfolding take_choice
  handler-after r rest w s e pointer mock h =
      let shared = ap (λ x. x.2.shared) (matcher_lem r s mock) in
      handler_lem rest w (after r s) e pointer (ap (λ v. v.choice) shared ∙ h)
      ∙ ap (λ v. served rest w e pointer v.path_params v.query_params (after r s)) shared

  -- If the matcher runs for a request outside the API's prefix and chooses an endpoint, and then the
  -- handler runs for the request, then the router takes the route, and the handler renders this
  -- endpoint with its match, its path parameters and its query parameters.
  handler-matcher :
      (r : Request) (w : Writer) (s : State services engine) (e : Endpoint R T) (pointer : ℕ)
      → starts_with r.path path_prefix ≡ false
      → chosen r s ≡ some (e, pointer)
      → let found = match_request_to_endpoint services now tree r s.world in
        ((matcher services engine path_prefix now tree r s).0 ≡ true)
        × (handler services engine
              (matcher services engine path_prefix now tree r s).1
              w
              (after r s)
            ≡ served found.0.1 w e pointer found.1 found.2 (after r s))
  unfolding take_choice is_chosen
  handler-matcher r w s e pointer mock h =
      let found = match_request_to_endpoint services now tree r s.world in
      let ran = matcher_lem r s mock in
      (
        ap (λ x. x.0) ran ∙ ap (is_chosen services engine) h,
        handler-after r _ w s e pointer mock h
            ∙ ap (λ x. served x.1 w e pointer found.1 found.2 (after r s)) ran,
      )

  -- If the matcher runs for one request and then for another one before the handler of the first runs,
  -- then the handler renders for the first request the endpoint of the second, with the second one's
  -- match and parameters, whatever the first one's endpoint is.
  pub handler-matcher-matcher :
      (r1 r2 : Request) (w : Writer) (s : State services engine) (e : Endpoint R T) (pointer : ℕ)
      → starts_with r2.path path_prefix ≡ false
      → chosen r2 (after r1 s) ≡ some (e, pointer)
      → let found = match_request_to_endpoint services now tree r2 (after r1 s).world in
        let rest = (matcher services engine path_prefix now tree r1 s).1 in
        handler services engine rest w (after r2 (after r1 s))
        ≡ served rest w e pointer found.1 found.2 (after r2 (after r1 s))
  handler-matcher-matcher r1 r2 w s e pointer mock h =
      handler-after r2 _ w (after r1 s) e pointer mock h
