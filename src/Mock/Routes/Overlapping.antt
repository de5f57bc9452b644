-- ===== src/Mock/Routes/Overlapping.antt =====
-- Requests to the mock route of mockgo/mock/requestHandler.go whose matchers and handlers run in any order: what
-- is recorded of them.
use text.Mathlib.Text.{starts_with}
use mockgo_server.Prelude.{
  ℕ, String, ◌≡◌, ◌∙◌, refl, ap, inl, inr, Bool-cases, List, [], ◌∷◌, if◌then◌else◌,
}
use mockgo_server.Http.{Request}
use mockgo_server.Http.Writer.{Writer}
use mockgo_server.Mock.Model.{Endpoint}
use mockgo_server.Mock.Tree.{Node}
use mockgo_server.Mock.Select.{Services}
use mockgo_server.Mock.Render.{Engine}
use mockgo_server.Mock.Routes.{true, State, matcher, handler}
use mockgo_server.Mock.Routes.Journal.{Journal}
use mockgo_server.Mock.Routes.Outcomes.{Outcome, Notes-mono}
use mockgo_server.Mock.Routes.Recorded.{
  seen, note_all, state_of, ChosenOnce, seen-matcher, seen-handler,
}

-- A step of the server: the matcher of a request that comes at a time, or the handler of a request, which writes
-- to its own response.
pub data Event : Type 0 where
  matching : ℕ → Request → Event
  handling : Request → Writer → Event

-- The requests outside the prefix, in the order of their matchers.
abbrev pub arrivals : String → List Event → List (ℕ × Request)
arrivals prefix [] = []
arrivals prefix (handling r w ∷ events) = arrivals prefix events
arrivals prefix (matching now r ∷ events) =
    if starts_with r.path prefix then arrivals prefix events else (now, r) ∷ arrivals prefix events

module _ {R T K : Type 0} (services : Services R) (engine : Engine T K) (prefix : String)
    (tree : Node (Endpoint R T)) where
  unfoldable pub run_event : State services engine → Event → State services engine
  run_event s (matching now r) = (matcher services engine prefix now tree r s).2
  run_event s (handling r w) = state_of services engine (handler services engine r w s)

  unfoldable pub run_events : State services engine → List Event → State services engine
  unfolding run_event
  run_events s [] = s
  run_events s (e ∷ events) = run_events (run_event s e) events

  matcher-under :
      (now : ℕ) (r : Request) (s : State services engine)
      → starts_with r.path prefix ≡ true
      → (matcher services engine prefix now tree r s).2 ≡ s
  unfolding matcher
  matcher-under now r s under = rw (under, matcher) refl

  -- In whatever order the matchers and the handlers of any requests run, and whatever the templates do, each
  -- request outside the prefix of the API is noted once, in the order of the matchers, as a match of the endpoint
  -- that matchRequestToEndpoint returns for it or as a mismatch where it returns nil, with the request and its
  -- time: in the match store, in the metrics, and in the memory, where handlers change nothing but responses.
  pub run_events-Journal :
      (events : List Event) (s : State services engine)
      → (os : List Outcome) × Journal (ChosenOnce services engine tree) (arrivals prefix events) os
        × (seen services engine (run_events s events).world
            ≡ note_all services engine os (seen services engine s.world))
  unfolding run_events
  run_events-Journal [] s = ([], tt, refl)
  run_events-Journal (handling r w ∷ events) s =
      let (os, journal, noted) =
        run_events-Journal events (state_of services engine (handler services engine r w s)) in
      (
        os,
        journal,
        noted ∙ ap (λ x. note_all services engine os x) (seen-handler services engine r w s),
      )
  run_events-Journal (matching now r ∷ events) s =
      let s' = (matcher services engine prefix now tree r s).2 in
      let (os, journal, noted) = run_events-Journal events s' in
      elim (Bool-cases (starts_with r.path prefix)) [
        | inl under ↦ rw under (
          os,
          journal,
          noted
              ∙ ap (λ x. note_all services engine os (seen services engine x.world))
                  (matcher-under now r s under),
        )
        | inr outside ↦
            let (o, mine, put) = seen-matcher services engine prefix now tree r s outside in
            rw outside (
              o ∷ os,
              (
                Notes-mono _ (ChosenOnce services engine tree r) (λ e h. (now, h)) now r o mine,
                journal,
              ),
              noted ∙ ap (λ x. note_all services engine os x) put,
            )
      ]
