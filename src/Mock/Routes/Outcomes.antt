-- ===== src/Mock/Routes/Outcomes.antt =====
-- What a request to the mock route of mockgo/mock/requestHandler.go leaves: a match of an endpoint or a mismatch,
-- and a match before its response was put in it.
use mockgo_server.Prelude.{
  ℕ, zero, suc, ◌≡◌, refl, ap, List, [], ◌∷◌, ◌++◌, none, some, Option, map, length,
}
use mockgo_server.Http.{Request}
use mockgo_server.Matches.{ActualResponse, Match, Mismatch}
use mockgo_server.Mock.Model.{Endpoint}
use mockgo_server.Mock.Select.{actual_request}
use mockgo_server.Mock.Render.{set_response}

pub data Outcome : Type 0 where
  hit : Match → Outcome
  miss : Mismatch → Outcome

module _ {R T : Type 0} (chosen : Option (Endpoint R T) → Type 0) where
  -- The outcome has the request and the time at which it came; a match has no response yet, and the id of the
  -- endpoint that was chosen; for a mismatch none was.
  abbrev pub Notes : ℕ → Request → Outcome → Type 0
  Notes now r (hit m) =
      (m.timestamp ≡ now)
      × (m.actual_request ≡ actual_request r)
      × (m.actual_response ≡ none)
      × ((e : Endpoint R T) × chosen (some e) × (m.endpoint_id ≡ e.id))
  Notes now r (miss n) = (n.timestamp ≡ now) × (n.actual_request ≡ actual_request r) × chosen none

module _ {R T : Type 0} (chosen known : Option (Endpoint R T) → Type 0) where
  pub Notes-mono :
      ((choice : Option (Endpoint R T)) → chosen choice → known choice)
      → (now : ℕ) (r : Request) (o : Outcome) → Notes chosen now r o
      → Notes known now r o
  Notes-mono f now r (hit m) (timed, same, open', (e, was, named)) =
      (timed, same, open', (e, f (some e) was, named))
  Notes-mono f now r (miss n) (timed, same, was) = (timed, same, f none was)

-- A match as it was when it was recorded.
abbrev pub unanswered : Match → Match
unanswered m = record m { actual_response = none }

pub unanswered-set_response :
    (pointer : ℕ) (response : ActualResponse) (heap : List Match)
    → map unanswered (set_response pointer response heap) ≡ map unanswered heap
unfolding set_response
unanswered-set_response pointer response [] = refl
unanswered-set_response zero response (m ∷ heap) = refl
unanswered-set_response (suc i) response (m ∷ heap) =
    ap (λ l. unanswered m ∷ l) (unanswered-set_response i response heap)

pub map-append :
    (xs ys : List Match) → map unanswered (xs ++ ys) ≡ map unanswered xs ++ map unanswered ys
map-append [] ys = refl
map-append (x ∷ xs) ys = ap (λ l. unanswered x ∷ l) (map-append xs ys)

pub length-unanswered : (xs : List Match) → length xs ≡ length (map unanswered xs)
length-unanswered [] = refl
length-unanswered (x ∷ xs) = ap suc (length-unanswered xs)
