-- ===== src/Mock/Select/Recorded.antt =====
-- Each request is recorded once: mockgo/mock/requestHandler.go.
use mockgo_server.Prelude.{
  List-cases, ℕ, String, ◌≡◌, refl, List, [], ◌∷◌, none, some, Bool-cases, inl, inr, arith,
}
use mockgo_server.Http.{Request, Body}
use mockgo_server.Mock.Model.{Endpoint, MatchRequest}
use mockgo_server.Mock.Tree.{Node, endpoints_of}
use mockgo_server.Mock.Search.{Walk, reached, missed, stopped, search_path}
use mockgo_server.Mock.Search.Total.{Ends, search_path-Ends}
use mockgo_server.Mock.Select.{
  Services, World, Place, path_matched, whole_path, position, Choice, match_body,
  match_query_params, match_header_values, add_match, add_mismatch, match_endpoints_attributes,
  candidates, match_search_node, choose, match_request_to_endpoint,
}

module _ {R : Type 0} (services : Services R) where
  -- Reading the body changes nothing else of the request.
  pub match_body_request :
      (wanted : MatchRequest R) (r : Request)
      → (match_body services wanted r).1 ≡ record r { body = (match_body services wanted r).1.body }
  unfolding match_body
  match_body_request wanted r = ground arith

module _ {R T : Type 0} (services : Services R) where
  -- What was chosen was recorded as a match, which the pointer names; where nothing was, the request
  -- was recorded as a mismatch. There is no other change.
  abbrev pub Recorded : ℕ → Request → World services → Choice T services → Type 0
  Recorded now r w (some (e, pointer), r', w') =
      ◌≡◌ {A = ℕ × World services} (pointer, w') (add_match services now e r w)
  Recorded now r w (none, r', w') = (place : Place) × (w' ≡ add_mismatch services now place r w)

  Recorded-body :
      (now : ℕ) (r : Request) (b : Body) (w : World services) (c : Choice T services)
      → Recorded now (record r { body = b }) w c
      → Recorded now r w c
  unfolding add_match add_mismatch
  Recorded-body now r b w (some (e, pointer), r', w') h = h
  Recorded-body now r b w (none, r', w') h = h

  Recorded-match_body :
      (now : ℕ) (wanted : MatchRequest R) (r : Request) (w : World services) (c : Choice T services)
      → Recorded now (match_body services wanted r).1 w c
      → Recorded now r w c
  Recorded-match_body now wanted r w c h =
      Recorded-body now r (match_body services wanted r).1.body w c
        (rw (match_body_request services wanted r) at h)

  match_endpoints_attributes-Recorded :
      (now : ℕ) (es : List (Endpoint R T)) (message : String) (r : Request) (w : World services)
      → Recorded now r w (match_endpoints_attributes services now message es r w)
  unfolding match_endpoints_attributes
  match_endpoints_attributes-Recorded now [] message r w = (path_matched message, refl)
  match_endpoints_attributes-Recorded now (e ∷ es) message r w =
      let rest = (match_body services e.request r).1 in
      elim (Bool-cases (match_query_params e.request r)) [
        | inr a ↦
            rw (a, match_endpoints_attributes) (match_endpoints_attributes-Recorded now es _ r w)
        | inl a ↦ elim (Bool-cases (match_header_values e.request r)) [
          | inr b ↦
              rw (a, b, match_endpoints_attributes)
                (match_endpoints_attributes-Recorded now es _ r w)
          | inl b ↦ elim (Bool-cases (match_body services e.request r).0) [
            | inr c ↦
                rw (a, b, c, match_endpoints_attributes)
                  (Recorded-match_body now e.request r w _
                    (match_endpoints_attributes-Recorded now es _ rest w))
            | inl c ↦
                rw (a, b, c, match_endpoints_attributes)
                  (Recorded-match_body now e.request r w
                    (
                      some (e, (add_match services now e rest w).0),
                      rest,
                      (add_match services now e rest w).1,
                    )
                    refl)
          ]
        ]
      ]

  match_search_node-Recorded :
      (now : ℕ) (sn : Node (Endpoint R T)) (r : Request) (w : World services)
      → Recorded now r w (match_search_node services now sn r w)
  unfolding match_search_node
  match_search_node-Recorded now sn r w = elim (List-cases (endpoints_of sn)) [
    | inl a ↦ rw (a, match_search_node) (whole_path, refl)
    | inr (p, ps, a) ↦ elim (List-cases (candidates services sn r)) [
      | inl b ↦ rw (a, b, match_search_node) (path_matched _, refl)
      | inr (e, es, b) ↦
          rw (a, b, match_search_node)
            (match_endpoints_attributes-Recorded now (candidates services sn r) "" r w)
    ]
  ]

  choose-Recorded :
      (now count : ℕ) (k : Walk (Endpoint R T)) (r : Request) (w : World services)
      → Ends count k
      → Recorded now r w (choose services now k r w).0
  unfolding choose
  choose-Recorded now count (reached sn params) r w h = match_search_node-Recorded now sn r w
  choose-Recorded now count (missed sn pos params) r w h = (position pos, refl)
  choose-Recorded now count stopped r w h = absurd h

-- Whatever the tree and the request, matchRequestToEndpoint records the request once: as a match of
-- the endpoint that it returns, with the pointer that it returns, or, where it returns none, as a
-- mismatch.
pub match_request_to_endpoint-Recorded :
    {R T : Type 0} (services : Services R) (now : ℕ) (tree : Node (Endpoint R T)) (r : Request)
    (w : World services)
    → Recorded services now r w (match_request_to_endpoint services now tree r w).0
unfolding match_request_to_endpoint
match_request_to_endpoint-Recorded services now tree r w =
    choose-Recorded services now _ (search_path tree r.path) r w (search_path-Ends tree r.path)
