-- ===== src/Mock/Select/Path.antt =====
-- The choice of mockgo/mock/requestHandler.go leaves the path of the request as it is, of which it reads
-- the body.
use mockgo_server.Prelude.{
  ℕ, String, ◌≡◌, ◌∙◌, refl, ap, List, [], ◌∷◌, List-cases, Bool-cases, inl, inr,
}
use mockgo_server.Http.{Request}
use mockgo_server.Mock.Model.{Endpoint}
use mockgo_server.Mock.Tree.{Node, endpoints_of}
use mockgo_server.Mock.Search.{Walk, reached, missed, stopped, search_path}
use mockgo_server.Mock.Select.Recorded.{match_body_request}
use mockgo_server.Mock.Select.{
  Services, World, match_body, match_query_params, match_header_values, match_endpoints_attributes,
  candidates, match_search_node, choose, match_request_to_endpoint,
}

module _ {R T : Type 0} (services : Services R) where
  match_endpoints_attributes-path :
      (now : ℕ) (es : List (Endpoint R T)) (message : String) (r : Request) (w : World services)
      → (match_endpoints_attributes services now message es r w).1.path ≡ r.path
  unfolding match_endpoints_attributes
  match_endpoints_attributes-path now [] message r w = refl
  match_endpoints_attributes-path now (e ∷ es) message r w =
      let read = match_body services e.request r in
      let same = ap (λ (q : Request). q.path) (match_body_request services e.request r) in
      elim (Bool-cases (match_query_params e.request r)) [
        | inr a ↦ rw (a, match_endpoints_attributes) (match_endpoints_attributes-path now es _ r w)
        | inl a ↦ elim (Bool-cases (match_header_values e.request r)) [
          | inr b ↦
              rw (a, b, match_endpoints_attributes) (match_endpoints_attributes-path now es _ r w)
          | inl b ↦ elim (Bool-cases read.0) [
            | inr c ↦
                rw (a, b, c, match_endpoints_attributes)
                  (match_endpoints_attributes-path now es _ read.1 w ∙ same)
            | inl c ↦ rw (a, b, c, match_endpoints_attributes) same
          ]
        ]
      ]

  match_search_node-path :
      (now : ℕ) (sn : Node (Endpoint R T)) (r : Request) (w : World services)
      → (match_search_node services now sn r w).1.path ≡ r.path
  unfolding match_search_node
  match_search_node-path now sn r w = elim (List-cases (endpoints_of sn)) [
    | inl a ↦ rw (a, match_search_node) refl
    | inr (p, ps, a) ↦ elim (List-cases (candidates services sn r)) [
      | inl b ↦ rw (a, b, match_search_node) refl
      | inr (e, es, b) ↦
          rw (a, b, match_search_node)
            (match_endpoints_attributes-path now (candidates services sn r) "" r w)
    ]
  ]

  choose-path :
      (now : ℕ) (k : Walk (Endpoint R T)) (r : Request) (w : World services)
      → (choose services now k r w).0.1.path ≡ r.path
  unfolding choose
  choose-path now (reached sn params) r w = match_search_node-path now sn r w
  choose-path now (missed sn pos params) r w = refl
  choose-path now stopped r w = refl

  pub match_request_to_endpoint-path :
      (now : ℕ) (tree : Node (Endpoint R T)) (r : Request) (w : World services)
      → (match_request_to_endpoint services now tree r w).0.1.path ≡ r.path
  unfolding match_request_to_endpoint
  match_request_to_endpoint-path now tree r w = choose-path now (search_path tree r.path) r w
