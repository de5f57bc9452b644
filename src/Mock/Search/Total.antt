-- ===== src/Mock/Search/Total.antt =====
-- The walk of mockgo/mock/requestHandler.go ends, and the position that it reports lies within the
-- path.
use mockgo_server.Prelude.{
  ◌∙◌, sym, false≢true, inr, inl, Bool-cases, ℕ, zero, suc, ◌+◌, ◌≤◌, ◌<◌, String, ◌==◌, ◌≡◌, ◌≢◌,
  refl, Bool, true, false, List, [], ◌∷◌, Option, none, some, GoMap, drop, arith, length,
  length-drop, eq_iff,
}
use mockgo_server.Mock.Tree.{Node, Children, search_nodes, has_child}
use mockgo_server.Mock.Search.{
  descend_to, Walk, reached, missed, stopped, Round, done, again, skip, resume, descend, round,
  search, get_path_segment, search_path, path_segments,
}

segment_in_range :
    (segments : List String) (p : ℕ) → get_path_segment segments p ≢ "" → p < length segments
segment_in_range [] zero h = absurd (h refl)
segment_in_range [] (suc p) h = absurd (h refl)
segment_in_range (s ∷ ss) zero h = omega arith
segment_in_range (s ∷ ss) (suc p) h = omega (arith, segment_in_range ss p h)

module _ {E : Type 0} where
  -- The walk has ended, and a mismatch is reported at a position from 1 to the number of segments.
  abbrev pub Ends : ℕ → Walk E → Type 0
  Ends count (reached n params) = Unit
  Ends count (missed n pos params) = (1 ≤ pos) × (pos ≤ count)
  Ends count stopped = ⊥

  -- A round ends the walk, or moves on to a later position.
  abbrev Progress : List String → ℕ → Round E → Type 0
  Progress segments p (done w) = Ends (length segments) w
  Progress segments p (again pos segment all_match sn params) =
      (p' : ℕ) × (pos ≡ suc p')
      × (p < p')
      × (p' ≤ length segments)
      × (segment ≡ get_path_segment segments p')

  skip_bounds :
      (cs : Children E) (rest : List String) (i : ℕ) (segment : String) (pos count : ℕ)
      → i + length rest ≤ count
      → pos ≤ i
      → (pos ≤ (skip cs rest i segment pos).1) × ((skip cs rest i segment pos).1 ≤ count)
  unfolding skip
  skip_bounds cs [] i segment pos count h k = ground arith
  skip_bounds cs (next ∷ rest) i segment pos count h k =
      ground (arith, skip_bounds cs rest (suc i) next pos count)

  resume_bounds :
      (all_match : Bool) (segments : List String) (pos : ℕ) (segment : String) (cs : Children E)
      → pos ≤ length segments
      → (pos ≤ (resume all_match segments pos segment cs).1)
        × ((resume all_match segments pos segment cs).1 ≤ length segments)
  unfolding resume
  resume_bounds false segments pos segment cs h = (omega arith, h)
  resume_bounds true segments pos segment cs h =
      skip_bounds cs (drop pos segments) pos segment pos (length segments)
        (omega (arith, length-drop pos segments)) (omega arith)

  descend_to-Progress :
      (segments : List String) (p : ℕ) (segment : String) (pos : ℕ) (sn : Node E)
      (params : GoMap String) (own star stars : Option (Node E))
      → suc p ≤ pos
      → pos ≤ length segments
      → Progress segments p (descend_to segments segment pos sn params own star stars)
  unfolding descend_to
  descend_to-Progress segments p segment pos sn params (some n) star stars h k =
      (pos, refl, omega arith, k, refl)
  descend_to-Progress segments p segment pos sn params none (some n) stars h k =
      (pos, refl, omega arith, k, refl)
  descend_to-Progress segments p segment pos sn params none none (some n) h k =
      (pos, refl, omega arith, k, refl)
  descend_to-Progress segments p segment pos sn params none none none h k = (omega arith, k)

  descend-Progress :
      (segments : List String) (p : ℕ) (at : String × ℕ) (sn : Node E) (params : GoMap String)
      → suc p ≤ at.1
      → at.1 ≤ length segments
      → Progress segments p (descend segments at sn params)
  unfolding descend
  descend-Progress segments p (segment, pos) sn params h k =
      descend_to-Progress segments p segment pos sn params _ _ _ h k

  round-Progress :
      (segments : List String) (p : ℕ) (all_match : Bool) (sn : Node E) (params : GoMap String)
      → Progress segments p
          (round segments (suc p) (get_path_segment segments p) all_match sn params)
  unfolding round
  round-Progress segments p all_match sn params =
      let segment = get_path_segment segments p in
      elim (Bool-cases (segment == "")) [
        | inl over ↦ rw over tt
        | inr more ↦
            let fits =
              segment_in_range segments p (λ e. false≢true (sym more ∙ (eq_iff _ _).1 e)) in
            elim (Bool-cases (has_child (search_nodes sn))) [
              | inl inner ↦
                  let (from, to) =
                    resume_bounds all_match segments (suc p) segment (search_nodes sn) fits in
                  rw (more, inner) (descend-Progress segments p _ sn params from to)
              | inr leaf ↦ elim (Bool-cases all_match) [
                | inl all ↦ rw (more, leaf, all) tt
                | inr one ↦ rw (more, leaf, one) (omega arith, fits)
              ]
            ]
      ]

  -- With fuel for the segments that are left, and two more rounds, the loop ends.
  search-Ends :
      (fuel : ℕ) (segments : List String) (p : ℕ) (all_match : Bool) (sn : Node E)
      (params : GoMap String)
      → length segments + 1 ≤ fuel + p
      → p ≤ length segments
      → Ends
          (length segments)
          (search fuel segments (suc p) (get_path_segment segments p) all_match sn params)
  unfolding search
  search-Ends zero segments p all_match sn params h k = absurd (omega arith)
  search-Ends (suc fuel) segments p all_match sn params h k =
      go (round segments (suc p) (get_path_segment segments p) all_match sn params)
        (round-Progress segments p all_match sn params)
        (λ p' a n ps. search-Ends fuel segments p' a n ps)
    where
      go :
          (r : Round E)
          → Progress segments p r
          → ((p' : ℕ) (a : Bool) (n : Node E) (ps : GoMap String)
              → length segments + 1 ≤ fuel + p'
              → p' ≤ length segments
              → Ends
                  (length segments)
                  (search fuel segments (suc p') (get_path_segment segments p') a n ps))
          → Ends (length segments) (elim r [
            | done w ↦ w
            | again pos' segment' all_match' sn' params' ↦
                search fuel segments pos' segment' all_match' sn' params'
          ])
      go (done w) q ih = q
      go (again pos segment a n ps) (p', e, later, bound, same) ih =
          rw (e, same) (ih p' a n ps (omega arith) bound)

-- The walk of any request's path through any tree ends within its rounds, and a mismatch is reported
-- at a position of the path, so that `pathSegments[:pathPos-1]` of addMismatch is in range.
pub search_path-Ends :
    {E : Type 0} (sn : Node E) (path : String)
    → Ends (length (path_segments path)) (search_path sn path)
unfolding search_path
search_path-Ends sn path =
    search-Ends (suc (suc (length (path_segments path)))) (path_segments path) 0 false sn []
      (omega arith) (omega arith)
