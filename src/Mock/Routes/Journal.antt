-- ===== src/Mock/Routes/Journal.antt =====
-- What requests to the mock route of mockgo/mock/requestHandler.go leave in the memory, as a journal of outcomes,
-- and the calls of the match store that the journal stands for.
use mockgo_server.Prelude.{
  ℕ, suc, String, ◌==◌, ◌≡◌, List, [], ◌∷◌, ◌++◌, Option, if◌then◌else◌, arith, ◌∙◌, sym, eq_iff,
}
use mathlib.Core.List.{append_assoc, append-nil}
use mockgo_server.Http.{Request}
use mockgo_server.Matches.{Match, Mismatch}
use mockgo_server.Matches.Inmemory.Log.{Call, matched, missed, Log, record_calls}
use mockgo_server.Mock.Model.{Endpoint}
use mockgo_server.Mock.Routes.Outcomes.{Outcome, hit, miss, Notes, Notes-mono}

module _ {R T : Type 0} (chosen : Request → Option (Endpoint R T) → Type 0) where
  -- One outcome for each request, in the order of the requests.
  abbrev pub Journal : List (ℕ × Request) → List Outcome → Type 0
  Journal [] [] = Unit
  Journal [] (o ∷ os) = ⊥
  Journal (r ∷ rs) [] = ⊥
  Journal ((now, r) ∷ rs) (o ∷ os) = Notes (chosen r) now r o × Journal rs os

module _ {R T : Type 0} (chosen known : Request → Option (Endpoint R T) → Type 0)
    (f : (r : Request) (e : Option (Endpoint R T)) → chosen r e → known r e) where
  pub Journal-mono :
      (rs : List (ℕ × Request)) (os : List Outcome) → Journal chosen rs os → Journal known rs os
  Journal-mono [] [] h = h
  Journal-mono [] (o ∷ os) h = h
  Journal-mono (r ∷ rs) [] h = h
  Journal-mono ((now, r) ∷ rs) (o ∷ os) (noted, h) =
      (Notes-mono (chosen r) (known r) (f r) now r o noted, Journal-mono rs os h)

abbrev pub hits : List Outcome → List Match
hits [] = []
hits (hit m ∷ os) = m ∷ hits os
hits (miss n ∷ os) = hits os

abbrev pub misses : List Outcome → List Mismatch
misses [] = []
misses (hit m ∷ os) = misses os
misses (miss n ∷ os) = n ∷ misses os

-- The indices, from `i` on, of the matches of an endpoint among all matches.
abbrev pub pointers : String → ℕ → List Outcome → List ℕ
pointers id i [] = []
pointers id i (hit m ∷ os) =
    if m.endpoint_id == id then i ∷ pointers id (suc i) os else pointers id (suc i) os
pointers id i (miss n ∷ os) = pointers id i os

-- The calls of the match store, where the next match gets the index `i`.
abbrev pub calls : ℕ → List Outcome → List (Call ℕ Mismatch)
calls i [] = []
calls i (hit m ∷ os) = matched m.endpoint_id i ∷ calls (suc i) os
calls i (miss n ∷ os) = missed n ∷ calls i os

pub calls-mismatches :
    (os : List Outcome) (i : ℕ) (g : Log ℕ Mismatch)
    → (record_calls g (calls i os)).mismatches ≡ g.mismatches ++ misses os
calls-mismatches [] i g = sym (append-nil g.mismatches)
calls-mismatches (hit m ∷ os) i g = calls-mismatches os (suc i) _
calls-mismatches (miss n ∷ os) i g =
    calls-mismatches os i _ ∙ append_assoc g.mismatches (n ∷ []) (misses os)

pub calls-matches :
    (os : List Outcome) (id : String) (i : ℕ) (g : Log ℕ Mismatch)
    → (record_calls g (calls i os)).matches id ≡ g.matches id ++ pointers id i os
calls-matches [] id i g = sym (append-nil (g.matches id))
calls-matches (miss n ∷ os) id i g = calls-matches os id i _
calls-matches (hit m ∷ os) id i g =
    calls-matches os id (suc i) _
    ∙ ground (
      arith,
      eq_iff m.endpoint_id id,
      append_assoc (g.matches id) (i ∷ []) (pointers id (suc i) os),
    )
