-- ===== src/Mock/Search/Registered.antt =====
-- registerEndpoint and the walk of matchRequestToEndpoint together: mockgo/mock/requestHandler.go. A
-- request that has the path of an endpoint gets to the endpoint.
use mockgo_server.Prelude.{
  eq_iff, String, ◌==◌, ◌≡◌, ◌≢◌, refl, sym, ◌∙◌, eq_refl, true, List, [], ◌∷◌, some, GoMap, All,
  lookup, or_zero, if◌then◌else◌,
}
use mockgo_server.Mock.Model.{Endpoint}
use mockgo_server.Mock.Tree.{
  Node, node, Children, search_nodes, endpoints_of, set_param_name, find_child,
}
use mockgo_server.Mock.Tree.Lookup.{find_child-set_child}
use mockgo_server.Mock.Register.{
  segment_key, param_name, register_at, child_or_new, endpoint_key, insert_endpoint,
  register_endpoint, with_method,
}
use mockgo_server.Mock.Register.Content.{
  same_path_literal, endpoints_at-nil, endpoints_at, register_at-below,
  endpoints_at-register_endpoint,
}
use mockgo_server.Mock.Search.{reached, search_path, path_segments}
use mockgo_server.Mock.Search.Exact.{follow, search_path-follow}

module _ {R T : Type 0} where
  -- The node at which a walk along the segments ends holds what the tree has under these segments.
  abbrev Arrives :
      List String → List String → Node (Endpoint R T) → GoMap String → GoMap String → Type 0
  Arrives keys segments n params params' =
      (m : Node (Endpoint R T)) × (follow n segments params ≡ some (m, params'))
      × ((key : String) → or_zero [] (lookup key (endpoints_of m)) ≡ endpoints_at keys key n)

  -- The child that a registration writes.
  abbrev below : String → List String → Endpoint R T → Children (Endpoint R T) → Node (Endpoint R T)
  below s ss e cs =
      register_at ss e (set_param_name (param_name s) (child_or_new (segment_key s) cs))

  find_child-register_at :
      (s : String) (ss : List String) (e : Endpoint R T) (cs : Children (Endpoint R T))
      (eps : GoMap (List (Endpoint R T))) (name key : String)
      → find_child key (search_nodes (register_at (s ∷ ss) e (node cs eps name)))
        ≡ (if segment_key s == key then some (below s ss e cs) else find_child key cs)
  unfolding register_at
  find_child-register_at s ss e cs eps name key =
      find_child-set_child (segment_key s) key (below s ss e cs) cs

  register_at-Arrives :
      (segments : List String) (e : Endpoint R T) (n : Node (Endpoint R T)) (params : GoMap String)
      → All (λ s. segment_key s ≡ s) segments
      → Arrives segments segments (register_at segments e n) params params
  unfolding follow
  register_at-Arrives [] e (node cs eps name) params literal = (
    register_at [] e (node cs eps name),
    refl,
    λ key. endpoints_at-nil key (register_at [] e (node cs eps name)),
  )
  register_at-Arrives (s ∷ ss) e (node cs eps name) params literal =
      let (m, led, found) =
        register_at-Arrives ss e (set_param_name (param_name s) (child_or_new (segment_key s) cs))
          params literal.1 in
      let own = find_child-register_at s ss e cs eps name s in
      let same : (segment_key s == s) ≡ true = (eq_iff _ _).1 literal.0 in
      (
        m,
        rw (own, same, follow) led,
        λ key. found key ∙ sym (rw same at (register_at-below s ss e cs eps name s ss key)),
      )

  -- After the registration of an endpoint whose path has only plain segments, none of them empty, a
  -- request with this path is led to a node that holds, under the key of the endpoint, the endpoints
  -- that were there before with the new one inserted, whatever else is registered.
  pub search_path-register_endpoint :
      (e : Endpoint R T) (n : Node (Endpoint R T))
      → All (λ s. segment_key s ≡ s) (path_segments e.request.path)
      → All (λ s. s ≢ "") (path_segments e.request.path)
      → (m : Node (Endpoint R T)) × (search_path (register_endpoint e n) e.request.path
          ≡ reached m [])
        × (or_zero [] (lookup (endpoint_key (with_method e)) (endpoints_of m))
            ≡ insert_endpoint
                (with_method e)
                (endpoints_at (path_segments e.request.path) (endpoint_key (with_method e)) n))
  unfolding register_endpoint
  search_path-register_endpoint e n literal full =
      let key = endpoint_key (with_method e) in
      let (m, led, found) =
        register_at-Arrives (path_segments e.request.path) (with_method e) n [] literal in
      let held = endpoints_at-register_endpoint e n (path_segments e.request.path) key in
      (
        m,
        search_path-follow _ m e.request.path [] full led,
        found key
            ∙ rw (same_path_literal (path_segments e.request.path) literal, eq_refl key) at held,
      )
