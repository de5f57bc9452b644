-- ===== src/Mock/Search/Exact.antt =====
-- Where the walk of mockgo/mock/requestHandler.go leads as long as no `**` is needed: each segment
-- takes the child of its own name, or else the child `*`, and there is no way back.
use mockgo_server.Prelude.{
  none≢some, ℕ, zero, suc, ◌<◌, String, ◌≡◌, ◌≢◌, refl, ap, ◌∙◌, eq_ne, Bool, true, false, List, [],
  ◌∷◌, Option, none, some, GoMap, drop, arith, All, length, Option-cases, inl, inr,
}
use mockgo_server.Mock.Tree.{Node, Children, no_child, child, search_nodes, has_child, find_child}
use mockgo_server.Mock.Search.{
  reached, done, again, resume, descend_to, descend, round, capture, search, get_path_segment,
  search_path, path_segments,
}
use mockgo_server.Mock.Search.Steps.{first, others, get_or-drop, drop-suc}

module _ {E : Type 0} where
  -- The child for a segment, with the path parameter that it captures.
  abbrev pub pick :
      Option (Node E) → Option (Node E) → String → GoMap String → Option (Node E × GoMap String)
  pick (some n) star segment params = some (n, params)
  pick none (some n) segment params = some (n, capture n segment params)
  pick none none segment params = none

  -- The node to which the segments lead, and the path parameters.
  unfoldable pub follow : Node E → List String → GoMap String → Option (Node E × GoMap String)
  follow sn [] params = some (sn, params)
  follow sn (s ∷ ss) params =
      elim (pick (find_child s (search_nodes sn)) (find_child "*" (search_nodes sn)) s params) [
        | none ↦ none
        | some (n, params') ↦ follow n ss params'
      ]

  has_child_of_find_child :
      (key : String) (cs : Children E) (n : Node E)
      → find_child key cs ≡ some n
      → has_child cs ≡ true
  unfolding find_child
  has_child_of_find_child key no_child n h = cc
  has_child_of_find_child key (child k m cs) n h = refl

  has_child_of_pick :
      (s : String) (cs : Children E) (params : GoMap String) (r : Node E × GoMap String)
      → pick (find_child s cs) (find_child "*" cs) s params ≡ some r
      → has_child cs ≡ true
  has_child_of_pick s cs params r h = elim (Option-cases (find_child s cs)) [
    | inr (n, e) ↦ has_child_of_find_child s cs n e
    | inl e ↦ elim (Option-cases (find_child "*" cs)) [
      | inr (n, e') ↦ has_child_of_find_child "*" cs n e'
      | inl e' ↦ cc
    ]
  ]

  descend_to_of_pick :
      (segments : List String) (s : String) (pos : ℕ) (sn : Node E) (params : GoMap String)
      (own star stars : Option (Node E)) (n : Node E) (params' : GoMap String)
      → pick own star s params ≡ some (n, params')
      → descend_to segments s pos sn params own star stars
        ≡ again (suc pos) (get_path_segment segments pos) false n params'
  unfolding descend_to
  descend_to_of_pick segments s pos sn params (some m) star stars n params' h = ground arith
  descend_to_of_pick segments s pos sn params none (some m) stars n params' h = ground arith
  descend_to_of_pick segments s pos sn params none none stars n params' h = cc

  round_of_pick :
      (segments : List String) (s : String) (pos : ℕ) (sn : Node E) (params : GoMap String)
      (n : Node E) (params' : GoMap String)
      → s ≢ ""
      → pick (find_child s (search_nodes sn)) (find_child "*" (search_nodes sn)) s params
        ≡ some (n, params')
      → round segments pos s false sn params
        ≡ again (suc pos) (get_path_segment segments pos) false n params'
  unfolding round resume descend
  round_of_pick segments s pos sn params n params' ne h =
      rw (eq_ne s "" ne, has_child_of_pick s (search_nodes sn) params (n, params') h)
        (descend_to_of_pick segments s pos sn params _ _ _ n params' h)

  round_of_empty :
      (segments : List String) (s : String) (pos : ℕ) (all_match : Bool) (sn : Node E)
      (params : GoMap String)
      → s ≡ ""
      → round segments pos s all_match sn params ≡ done (reached sn params)
  unfolding round
  round_of_empty segments s pos all_match sn params e = rw e refl

  search-follow :
      (ks : List String) (fuel : ℕ) (segments : List String) (p : ℕ) (sn m : Node E)
      (params params' : GoMap String)
      → drop p segments ≡ ks
      → All (λ k. k ≢ "") ks
      → follow sn ks params ≡ some (m, params')
      → length ks < fuel
      → search fuel segments (suc p) (get_path_segment segments p) false sn params
        ≡ reached m params'
  unfolding search follow
  search-follow [] (suc fuel) segments p sn m params params' left full led enough =
      let over = get_or-drop segments p ∙ ap first left in
      rw (round_of_empty segments _ (suc p) false sn params over, search) (cc)
  search-follow (s ∷ ss) (suc fuel) segments p sn m params params' left full led enough =
      let here : get_path_segment segments p ≡ s = get_or-drop segments p ∙ ap first left in
      elim (Option-cases
        (pick (find_child s (search_nodes sn)) (find_child "*" (search_nodes sn)) s params)) [
          | inl lost ↦ absurd (none≢some (m, params') (rw (lost, follow) at led))
          | inr ((n, params''), took) ↦
              let later = drop-suc segments p ∙ ap others left in
              rw (here, round_of_pick segments s (suc p) sn params n params'' full.0 took, search)
                (search-follow ss fuel segments (suc p) n m params'' params' later full.1
                  (rw (took, follow) at led) (omega arith))
        ]
  search-follow ks zero segments p sn m params params' left full led enough = absurd (omega arith)

-- Where the segments of a request's path are not empty and lead to a node, each by the child of its
-- name or else by the child `*`, the walk reaches this node with the same path parameters.
pub search_path-follow :
    {E : Type 0} (sn m : Node E) (path : String) (params : GoMap String)
    → All (λ k. k ≢ "") (path_segments path)
    → follow sn (path_segments path) [] ≡ some (m, params)
    → search_path sn path ≡ reached m params
unfolding search_path
search_path-follow sn m path params full led =
    search-follow (path_segments path) (suc (suc (length (path_segments path))))
      (path_segments path) 0 sn m [] params refl full led (omega arith)
