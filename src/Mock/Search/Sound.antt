-- ===== src/Mock/Search/Sound.antt =====
-- What the walk of mockgo/mock/requestHandler.go reaches: a node whose path of keys fits the path of
-- the request, in the sense of the README's rules for `*` and `**`.
use mathlib.Core.Path.{subst}
use mockgo_server.Prelude.{
  length, ap, Option-cases, ◌∙◌, Bool-cases, drop-drop, ℕ, zero, suc, String, ◌==◌, ◌≡◌, ◌≢◌, refl,
  sym, eq_iff, Bool, true, false, false≢true, List, [], ◌∷◌, Option, none, some, drop, ◌⊎◌, inl,
  inr,
}
use mockgo_server.Mock.Tree.{Node, search_nodes, find_child}
use mockgo_server.Mock.Search.Fitting.{Fits, node_at, until_empty, until_empty_of_ne, Takes-own}
use mockgo_server.Mock.Search.Leads.{
  Leads, Leads-later, Leads-child, Leads-stars, Leads-here_of_empty, Leads-here_of_all,
}
use mockgo_server.Mock.Search.Steps.{first, others, get_or-drop, drop-suc}
use mockgo_server.Mock.Search.{
  search, search_path, path_segments, has_child, descend, resume, round, stopped, missed, again,
  missed, reached, GoMap, done, Round, descend_to, skip, get_path_segment,
}

module _ {E : Type 0} (segments : List String) where
  -- What a round says of the walk from its node and its position: `m` is what its end reaches, or what
  -- the next rounds do.
  Says : Bool → Node E → ℕ → Node E → Round E → Type 0
  Says all_match sn p m (done (reached n params)) = n ≡ m → Leads segments all_match sn p m
  Says all_match sn p m (done (missed n pos params)) = Unit
  Says all_match sn p m (done stopped) = Unit
  Says all_match sn p m (again pos segment all_match' n params) =
      (p' : ℕ) × (pos ≡ suc p')
      × (segment ≡ get_path_segment segments p')
      × (Leads segments all_match' n p' m → Leads segments all_match sn p m)

  -- `at` is the segment and the position with which the children of `sn` are looked up: that of `p`,
  -- or a later one, or, behind `**`, the empty segment.
  HoldsAt : Bool → Node E → ℕ → Node E → String → ℕ → Type 0
  HoldsAt all_match sn p m segment pos =
      (q : ℕ) × (pos ≡ suc q)
      × (get_path_segment segments q ≢ "")
      × ((segment ≡ get_path_segment segments q) ⊎ (segment ≡ ""))
      × (Leads segments false sn q m → Leads segments all_match sn p m)

  descend_to-Says :
      (all_match : Bool) (sn : Node E) (p : ℕ) (m : Node E) (segment : String) (pos : ℕ)
      (params : GoMap String) (own_child star_child stars_child : Option (Node E))
      → find_child segment (search_nodes sn) ≡ own_child
      → find_child "*" (search_nodes sn) ≡ star_child
      → find_child "**" (search_nodes sn) ≡ stars_child
      → HoldsAt all_match sn p m segment pos
      → Says all_match sn p m
          (descend_to segments segment pos sn params own_child star_child stars_child)
  unfolding descend_to Says HoldsAt
  descend_to-Says all_match sn p m segment pos params (some n) b c e f g (q, at, ne, is, back) = (
    pos,
    refl,
    refl,
    λ l. back (Leads-child segments segment sn n m q e ne (Takes-own _ _ is) (rw at at l)),
  )
  descend_to-Says all_match sn p m segment pos params none (some n) c e f g (q, at, ne, is, back) =
      (
        pos,
        refl,
        refl,
        λ l. back (Leads-child segments "*" sn n m q f ne (inr (inl refl)) (rw at at l)),
      )
  descend_to-Says all_match sn p m segment pos params none none (some n) e f g
        (q, at, ne, is, back) =
      (pos, refl, refl, λ l. back (Leads-stars segments sn n m q g ne (rw at at l)))
  descend_to-Says all_match sn p m segment pos params none none none e f g h = tt

  skip-HoldsAt :
      (sn m : Node E) (p pos : ℕ) (rest : List String) (j : ℕ)
      → HoldsAt true sn p m "" pos
      → rest ≡ drop (suc j) segments
      → (d : ℕ) → drop d (until_empty (drop p segments)) ≡ until_empty (drop j segments)
      → let at = skip (search_nodes sn) rest (suc j) (get_path_segment segments j) pos in
        HoldsAt true sn p m at.0 at.1
  unfolding skip HoldsAt
  skip-HoldsAt sn m p pos [] j base left d same =
      let segment = get_path_segment segments j in
      elim (Bool-cases (segment == "")) [
        | inl over ↦
            rw (over, skip)
              (subst (λ t. HoldsAt true sn p m t pos) (sym ((eq_iff segment "").0 over)) base)
        | inr more ↦
            let ne = λ (e : segment ≡ ""). false≢true (sym more ∙ (eq_iff segment "").1 e) in
            elim (Option-cases (find_child segment (search_nodes sn))) [
              | inl missing ↦ rw (more, missing, skip) base
              | inr (n, found) ↦
                  rw (more, found, skip)
                    (j, refl, ne, inl refl, Leads-later segments sn m p j d same)
            ]
      ]
  skip-HoldsAt sn m p pos (next ∷ rest) j base left d same =
      let segment = get_path_segment segments j in
      elim (Bool-cases (segment == "")) [
        | inl over ↦
            rw (over, skip)
              (subst (λ t. HoldsAt true sn p m t pos) (sym ((eq_iff segment "").0 over)) base)
        | inr more ↦
            let ne = λ (e : segment ≡ ""). false≢true (sym more ∙ (eq_iff segment "").1 e) in
            elim (Option-cases (find_child segment (search_nodes sn))) [
              | inl missing ↦
                  let here : get_path_segment segments (suc j) ≡ next =
                    get_or-drop segments (suc j) ∙ sym (ap first left) in
                  let shift : drop (suc d) (until_empty (drop p segments))
                      ≡ until_empty (drop (suc j) segments) =
                    sym (drop-drop d (until_empty (drop p segments)))
                    ∙ ap (drop 1) (same ∙ until_empty_of_ne segments j ne) in
                  rw (more, missing, skip)
                    (rw here at (
                      skip-HoldsAt sn m p pos rest (suc j) base
                        (ap others left ∙ sym (drop-suc segments (suc j))) (suc d) shift))
              | inr (n, found) ↦
                  rw (more, found, skip)
                    (j, refl, ne, inl refl, Leads-later segments sn m p j d same)
            ]
      ]

  resume-HoldsAt :
      (all_match : Bool) (sn m : Node E) (p : ℕ)
      → get_path_segment segments p ≢ ""
      → let at =
          resume all_match segments (suc p) (get_path_segment segments p) (search_nodes sn) in
        HoldsAt all_match sn p m at.0 at.1
  unfolding resume HoldsAt
  resume-HoldsAt false sn m p ne = (p, refl, ne, inl refl, λ l. l)
  resume-HoldsAt true sn m p ne =
      skip-HoldsAt sn m p (suc p) (drop (suc p) segments) p
        (p, refl, ne, inr refl, Leads-later segments sn m p p 0 refl) refl 0 refl

  round-Says :
      (all_match : Bool) (sn m : Node E) (p : ℕ) (params : GoMap String)
      → Says all_match sn p m
          (round segments (suc p) (get_path_segment segments p) all_match sn params)
  unfolding round descend Says
  round-Says all_match sn m p params =
      let segment = get_path_segment segments p in
      elim (Bool-cases (segment == "")) [
        | inl over ↦
            rw over (Leads-here_of_empty segments all_match sn m p ((eq_iff segment "").0 over))
        | inr more ↦
            let ne = λ (e : segment ≡ ""). false≢true (sym more ∙ (eq_iff segment "").1 e) in
            elim (Bool-cases (has_child (search_nodes sn))) [
              | inl inner ↦
                  let at = resume all_match segments (suc p) segment (search_nodes sn) in
                  rw (more, inner)
                    (descend_to-Says all_match sn p m at.0 at.1 params _ _ _ refl refl refl
                      (resume-HoldsAt all_match sn m p ne))
              | inr leaf ↦ elim (Bool-cases all_match) [
                | inl all ↦ rw (more, leaf, all) (Leads-here_of_all segments sn m p)
                | inr one ↦ rw (more, leaf, one) tt
              ]
            ]
      ]

  search-Leads :
      (fuel : ℕ) (all_match : Bool) (sn m : Node E) (p : ℕ) (params params' : GoMap String)
      → search fuel segments (suc p) (get_path_segment segments p) all_match sn params
        ≡ reached m params'
      → Leads segments all_match sn p m
  unfolding search Says
  search-Leads zero all_match sn m p params params' h = cc
  search-Leads (suc fuel) all_match sn m p params params' h =
      go (round segments (suc p) (get_path_segment segments p) all_match sn params)
        (round-Says all_match sn m p params) h (λ a n p' ps. search-Leads fuel a n m p' ps params')
    where
      go :
          (r : Round E)
          → Says all_match sn p m r
          → (elim r [
            | done w ↦ w
            | again pos' segment' all_match' sn' ps ↦
                search fuel segments pos' segment' all_match' sn' ps
          ])
            ≡ reached m params'
          → ((a : Bool) (n : Node E) (p' : ℕ) (ps : GoMap String)
              → search fuel segments (suc p') (get_path_segment segments p') a n ps
                ≡ reached m params'
              → Leads segments a n p' m)
          → Leads segments all_match sn p m
      go (done (reached n ps)) says e ih = says (cc)
      go (done (missed n pos ps)) says e ih = cc
      go (done stopped) says e ih = cc
      go (again pos segment a n ps) (p', at, is, back) e ih = back (ih a n p' ps (rw (at, is) at e))

-- If the walk of a request's path reaches a node, this is the node at the end of some path of keys that
-- fits the segments of the request up to the first empty one.
pub search_path-Fits :
    {E : Type 0} (sn m : Node E) (path : String) (params : GoMap String)
    → search_path sn path ≡ reached m params
    → (ks : List String) × (node_at ks sn ≡ some m) × Fits ks (until_empty (path_segments path))
unfolding search_path
search_path-Fits sn m path params h =
    let l =
      search-Leads (path_segments path) (suc (suc (length (path_segments path)))) false sn m 0 []
        params h in
    (l.keys, l.at, rw (l.exact refl) at l.fits)
