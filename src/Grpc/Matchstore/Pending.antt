-- ===== src/Grpc/Matchstore/Pending.antt =====
-- A request whose match is recorded and whose response is not rendered yet, while another server asks for
-- the matches: mockgo/mock/requestHandler.go with mockgo-grpc/matchstore/matchstore.go.
use mathlib.Core.Path.{subst}
use mockgo_server.Prelude.{
  ℕ, ◌≤◌, String, ◌≡◌, refl, ap, sym, ◌∙◌, arith, eq_refl, inl, inr, Bool-cases, List, [], ◌∷◌,
  ◌++◌, some, ok, length, get_or, ltb, lookup, lookup-insert, or_zero,
}
use mockgo_server.Http.{Request}
use mockgo_server.Matches.{Match, Mismatch}
use mockgo_server.Matches.Inmemory.{
  Inmemory, inmemory_matchstore, uint16, push_bounded, get_matches, add_match,
}
use mockgo_server.Matches.Inmemory.Capacity.{copy_lem}
use mockgo_server.Mock.Model.{Endpoint}
use mockgo_server.Mock.Tree.{Node}
use mockgo_server.Mock.Select
use mockgo_server.Mock.Select.{Services, World, match_request_to_endpoint}
use mockgo_server.Mock.Select.Recorded.{Recorded, match_request_to_endpoint-Recorded}
use mockgo_server.Grpc.Attempt.{crashed}
use mockgo_server.Grpc.Messages.{Timestamps}
use mockgo_server.Grpc.Matchstore.{handle_fetch_matches}
use mockgo_server.Grpc.Matchstore.Fetched.{handle_fetch_matches-crashed}

get_or-append : {A : Type 0} (l : List A) (a d : A) → get_or (l ++ a ∷ []) (length l) d ≡ a
get_or-append [] a d = refl
get_or-append (x ∷ l) a d = get_or-append l a d

-- A store that can hold an entry ends with the new one.
push_bounded-back :
    {A : Type 0} (size : ℕ) (a : A) (l : List A)
    → 1 ≤ size
    → (before : List A) × (push_bounded size a l ≡ before ++ a ∷ [])
unfolding push_bounded
push_bounded-back size a [] h = ([], ground arith)
push_bounded-back size a (x ∷ l) h =
    elim (Bool-cases (ltb size (uint16 (length ((x ∷ l) ++ a ∷ []))))) [
      | inl full ↦ (l, rw full refl)
      | inr room ↦ (x ∷ l, rw room refl)
    ]

get_matches-add_match :
    {M N : Type 0} (id : String) (m : M) (s : Inmemory M N)
    → (get_matches id (add_match id m s).1).0
      ≡ ok (push_bounded s.size m (or_zero [] (lookup id s.matches)))
unfolding get_matches add_match
get_matches-add_match id m s = ground (
  arith,
  lookup-insert id id (push_bounded s.size m (or_zero [] (lookup id s.matches))) s.matches,
  eq_refl id,
  copy_lem [] (push_bounded s.size m (or_zero [] (lookup id s.matches))),
)

-- Services with a match store in memory, as mockgo-grpc has it.
abbrev pub with_store_in_memory : {R : Type 0} → Services R → Services R
with_store_in_memory base = record base { store = inmemory_matchstore ℕ Mismatch }

module _ {R T : Type 0} (base : Services R) (times : Timestamps) where
  -- What the recording of a match leaves lets FetchMatches panic.
  recorded_crash :
      (now : ℕ) (e : Endpoint R T) (r : Request) (w w' : World (with_store_in_memory base))
      (pointer : ℕ) (unset : Match)
      → ◌≡◌ {A = ℕ × World (with_store_in_memory base)}
          (pointer, w')
          (Select.add_match (with_store_in_memory base) now e r w)
      → 1 ≤ w.stored.size
      → (handle_fetch_matches times
          (inmemory_matchstore ℕ Mismatch)
          (λ p. get_or w'.heap p unset)
          e.id
          w'.stored).0
        ≡ crashed
  unfolding Select.add_match
  recorded_crash now e r w w' pointer unset same room =
      let (before, ends) =
        push_bounded-back w.stored.size (length w.heap) (or_zero [] (lookup e.id w.stored.matches))
          room in
      subst
        (λ (v : World (with_store_in_memory base)).
          (handle_fetch_matches times (inmemory_matchstore ℕ Mismatch) (λ p. get_or v.heap p unset)
            e.id v.stored).0
          ≡ crashed)
        (sym (ap (λ x. x.1) same))
        (handle_fetch_matches-crashed times (inmemory_matchstore ℕ Mismatch) _ e.id _ before
          (length w.heap) [] (get_matches-add_match e.id (length w.heap) w.stored ∙ ap ok ends)
          (ap (λ (m : Match). m.actual_response) (get_or-append w.heap _ unset)))

  -- Right after matchRequestToEndpoint has returned an endpoint for a request, before any other request and before its
  -- response is rendered, FetchMatches for this endpoint panics on a server whose store in memory has a size of 1 at
  -- least.
  pub handle_fetch_matches-match_request_to_endpoint :
      (now : ℕ) (tree : Node (Endpoint R T)) (r : Request) (w : World (with_store_in_memory base))
      (e : Endpoint R T) (pointer : ℕ) (unset : Match)
      → (match_request_to_endpoint (with_store_in_memory base) now tree r w).0.0 ≡ some (e, pointer)
      → 1 ≤ w.stored.size
      → (handle_fetch_matches times
          (inmemory_matchstore ℕ Mismatch)
          (λ p.
            get_or
              (match_request_to_endpoint (with_store_in_memory base) now tree r w).0.2.heap
              p
              unset)
          e.id
          (match_request_to_endpoint (with_store_in_memory base) now tree r w).0.2.stored).0
        ≡ crashed
  handle_fetch_matches-match_request_to_endpoint now tree r w e pointer unset chosen room =
      let after = (match_request_to_endpoint (with_store_in_memory base) now tree r w).0 in
      recorded_crash now e r w after.2 pointer unset
        (subst (λ c. Recorded (with_store_in_memory base) now r w (c, after.1, after.2)) chosen
          (match_request_to_endpoint-Recorded (with_store_in_memory base) now tree r w))
        room
