-- ===== src/Mock/Routes/Recorded.antt =====
-- What a request to the mock route of mockgo/mock/requestHandler.go leaves in the memory: a match of an endpoint
-- or a mismatch.
use mockgo_server.Mock.Routes.Outcomes.{
  Outcome, hit, miss, Notes, unanswered, unanswered-set_response, map-append, length-unanswered,
}
use text.Mathlib.Text.{starts_with}
use mockgo_server.Prelude.{
  Bool, ℕ, String, ◌≡◌, ◌∙◌, refl, ap, true, false, inl, inr, List, [], ◌∷◌, ◌++◌, none, some,
  Option, map, length, GoMap,
}
use mockgo_server.Http.{Request}
use mockgo_server.Http.Writer.{Writer}
use mockgo_server.Matches.{Match}
use mockgo_server.Mock.Model.{Endpoint}
use mockgo_server.Prelude.Int.{ℤ}
use mockgo_server.Mock.Tree.{Node}
use mockgo_server.Mock.Select.{
  Choice, Services, World, add_match, add_mismatch, actual_request, match_request_to_endpoint,
}
use mockgo_server.Mock.Select.Recorded.{Recorded, match_request_to_endpoint-Recorded}
use mockgo_server.Mock.Render.{Engine, Memory, Reply, answered, panicked}
use mockgo_server.Mock.Render.Answers.{Replied, render_response-Replied}
use mockgo_server.Mock.Routes.{
  State, matcher, handler, handle_choice, after_reply, memory, take_choice,
}

module _ {R T K : Type 0} (services : Services R) (engine : Engine T K) where
  open services use {store}

  -- The matches as they were recorded, the match store, and the metrics.
  abbrev pub Seen : Type 0
  Seen = List Match × store.State × services.Counters

  abbrev pub seen : World services → Seen
  seen w = (map unanswered w.heap, w.stored, w.counters)

  -- The specification: an outcome puts a match behind the others and its pointer into the store, or a
  -- mismatch into the store, and is counted.
  abbrev pub note : Outcome → Seen → Seen
  note (hit m) (heap, stored, counters) = (
    heap ++ m ∷ [],
    (store.add_match m.endpoint_id (length heap) stored).1,
    services.count_match m.endpoint_id counters,
  )
  note (miss n) (heap, stored, counters) =
      (heap, (store.add_mismatch n stored).1, services.count_mismatch counters)

  -- The same of outcomes one after the other.
  abbrev pub note_all : List Outcome → Seen → Seen
  note_all [] before = before
  note_all (o ∷ os) before = note_all os (note o before)

  abbrev pub state_of : Reply (State services engine) → State services engine
  state_of (answered w s) = s
  state_of (panicked s) = s

  seen-after_reply :
      (A : ℤ → Type 0) (w : Writer) (s : State services engine) (pointer : ℕ)
      (reply : Reply (Memory K))
      → Replied A w pointer (memory services engine s) reply
      → seen (state_of (after_reply services engine s reply)).world ≡ seen s.world
  unfolding after_reply memory
  seen-after_reply A w s pointer (panicked m) h =
      ap (λ heap. (map unanswered heap, s.world.stored, s.world.counters)) h
  seen-after_reply A w s pointer (answered w' m) (inl (h, sent)) =
      ap (λ heap. (map unanswered heap, s.world.stored, s.world.counters)) h
  seen-after_reply A w s pointer (answered w' m) (inr (status, rendered, sent, h)) =
      ap (λ heap. (map unanswered heap, s.world.stored, s.world.counters)) h
      ∙ ap (λ heap. (heap, s.world.stored, s.world.counters))
          (unanswered-set_response pointer _ s.world.heap)

  -- The state after the handler, which the router runs where the matcher found an endpoint.
  abbrev pub handled : Writer → Bool × Request × State services engine → State services engine
  handled w (true, r, s) = state_of (handler services engine (record r { vars = [] }) w s)
  handled w (false, r, s) = s

  -- The choice for the request, in some state of the memory.
  abbrev pub Chosen : ℕ → Node (Endpoint R T) → Request → Option (Endpoint R T) → Type 0
  Chosen now tree r none =
      (w : World services) × ((match_request_to_endpoint services now tree r w).0.0 ≡ none)
  Chosen now tree r (some e) =
      (w : World services) × (pointer : ℕ) × ((match_request_to_endpoint services now tree r w).0.0
        ≡ some (e, pointer))

  -- The same at some time.
  abbrev pub ChosenOnce : Node (Endpoint R T) → Request → Option (Endpoint R T) → Type 0
  ChosenOnce tree r choice = (now : ℕ) × Chosen now tree r choice

  -- The same of what matchRequestToEndpoint returned.
  abbrev Returned : ℕ → Node (Endpoint R T) → Request → Option (Endpoint R T × ℕ) → Type 0
  Returned now tree r none = Chosen now tree r none
  Returned now tree r (some (e, pointer)) = Chosen now tree r (some e)

  Returned-match_request_to_endpoint :
      (now : ℕ) (tree : Node (Endpoint R T)) (r : Request) (w : World services)
      (choice : Option (Endpoint R T × ℕ))
      → (match_request_to_endpoint services now tree r w).0.0 ≡ choice
      → Returned now tree r choice
  Returned-match_request_to_endpoint now tree r w none h = (w, h)
  Returned-match_request_to_endpoint now tree r w (some (e, pointer)) h = (w, pointer, h)

  seen-add_match :
      (now : ℕ) (tree : Node (Endpoint R T)) (e : Endpoint R T) (r : Request) (w : World services)
      → Chosen now tree r (some e)
      → (o : Outcome) × Notes (Chosen now tree r) now r o
        × (seen (add_match services now e r w).1 ≡ note o (seen w))
  unfolding add_match
  seen-add_match now tree e r w was =
      let m : Match = record {
        endpoint_id = e.id;
        timestamp = now;
        actual_request = actual_request r;
        actual_response = none;
      } in
      (
        hit m,
        (refl, refl, refl, (e, was, refl)),
        ap
              (λ heap. (
                heap,
                (store.add_match e.id (length w.heap) w.stored).1,
                services.count_match e.id w.counters,
              ))
              (map-append w.heap (m ∷ []))
            ∙ ap
                (λ n. (
                  map unanswered w.heap ++ m ∷ [],
                  (store.add_match e.id n w.stored).1,
                  services.count_match e.id w.counters,
                ))
                (length-unanswered w.heap),
      )

  seen-take_choice :
      (now : ℕ) (tree : Node (Endpoint R T)) (r : Request) (s : State services engine)
      (found : Choice T services × GoMap String × GoMap String)
      → Returned now tree r found.0.0
      → Recorded services now r s.world found.0
      → (o : Outcome) × Notes (Chosen now tree r) now r o
        × (seen (take_choice services engine found s).2.world ≡ note o (seen s.world))
  unfolding take_choice add_mismatch
  seen-take_choice now tree r s ((none, r', w'), path_params, query_params) was (place, h) =
      (miss _, (refl, refl, was), ap (λ x. seen x) h)
  seen-take_choice now tree r s ((some (e, pointer), r', w'), path_params, query_params) was h =
      let (o, noted, put) = seen-add_match now tree e r s.world was in
      (o, noted, ap (λ x. seen x.1) h ∙ put)

  -- A matcher notes a request outside the prefix once, as a match of the endpoint that it chooses or as a
  -- mismatch.
  pub seen-matcher :
      (prefix : String) (now : ℕ) (tree : Node (Endpoint R T)) (r : Request)
      (s : State services engine)
      → starts_with r.path prefix ≡ false
      → (o : Outcome) × Notes (Chosen now tree r) now r o
        × (seen (matcher services engine prefix now tree r s).2.world ≡ note o (seen s.world))
  unfolding matcher
  seen-matcher prefix now tree r s outside =
      rw (outside, matcher)
        (seen-take_choice now tree r s (match_request_to_endpoint services now tree r s.world)
          (Returned-match_request_to_endpoint now tree r s.world _ refl)
          (match_request_to_endpoint-Recorded services now tree r s.world))

  seen-handle_choice :
      (r : Request) (w : Writer) (s : State services engine) (choice : Option (Endpoint R T × ℕ))
      → seen (state_of (handle_choice services engine r w s choice)).world ≡ seen s.world
  unfolding handle_choice memory
  seen-handle_choice r w s none = refl
  seen-handle_choice r w s (some (e, pointer)) = seen-after_reply _ w s pointer _ (
      render_response-Replied engine r e pointer s.shared.path_params s.shared.query_params w
        (memory services engine s))

  -- A handler changes only responses, whatever the templates do, and whichever endpoint and match it finds in
  -- the shared variables.
  pub seen-handler :
      (r : Request) (w : Writer) (s : State services engine)
      → seen (state_of (handler services engine r w s)).world ≡ seen s.world
  unfolding handler
  seen-handler r w s = seen-handle_choice r w s s.shared.choice

  pub seen-handled :
      (w : Writer) (found : Bool × Request × State services engine)
      → seen (handled w found).world ≡ seen found.2.world
  seen-handled w (true, r, s) = seen-handler (record r { vars = [] }) w s
  seen-handled w (false, r, s) = refl
