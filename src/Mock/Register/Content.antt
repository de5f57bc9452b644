-- ===== src/Mock/Register/Content.antt =====
-- What the tree holds after registerEndpoint of mockgo/mock/requestHandler.go, as a map from paths of
-- segment keys and endpoint keys to lists of endpoints.
use mockgo_server.Mock.Tree.Lookup.{find_child-set_child}
use mockgo_server.Mock.Register.{
  split, with_method, drop, register_endpoint, set_child, param_name, insert_endpoint, endpoint_key,
  segment_key, register_at, child_or_new,
}
use mockgo_server.Prelude.{
  All, GoMap, ◌∙◌, Bool-cases, inl, inr, lookup-insert, eq_iff, map, if◌then◌else◌, arith, refl,
  ◌≡◌, String, ◌==◌, Bool, true, false, ◌&&◌, List, [], ◌∷◌, none, some, lookup, or_zero,
}
use mockgo_server.Mock.Model.{Endpoint}
use mockgo_server.Mock.Tree.{
  endpoints_of, empty_node, Children, set_param_name, Node, node, find_child,
}

pub same_path : List String → List String → Bool
same_path [] [] = true
same_path (a ∷ as') (b ∷ bs) = a == b && same_path as' bs
same_path _ _ = false

pub same_path_literal :
    (ss : List String) → All (λ s. segment_key s ≡ s) ss → same_path (map segment_key ss) ss ≡ true
unfolding same_path
same_path_literal [] h = refl
same_path_literal (s ∷ ss) h =
    ground (arith, (eq_iff (segment_key s) s).1 h.0, same_path_literal ss h.1)

pub same_path_equal : (as' bs : List String) → same_path as' bs ≡ true → as' ≡ bs
unfolding same_path
same_path_equal [] [] h = refl
same_path_equal [] (b ∷ bs) h = cc
same_path_equal (a ∷ as') [] h = cc
same_path_equal (a ∷ as') (b ∷ bs) h = ground (arith, eq_iff a b, same_path_equal as' bs)

module _ {R T : Type 0} where
  -- The endpoints that stand under a key in the node at the end of a path; none where there is no
  -- such node.
  unfoldable pub endpoints_at : List String → String → Node (Endpoint R T) → List (Endpoint R T)
  endpoints_at [] key (node cs eps name) = or_zero [] (lookup key eps)
  endpoints_at (k ∷ ks) key (node cs eps name) = elim (find_child k cs) [
    | none ↦ []
    | some n ↦ endpoints_at ks key n
  ]

  pub endpoints_at-nil :
      (key : String) (n : Node (Endpoint R T))
      → or_zero [] (lookup key (endpoints_of n)) ≡ endpoints_at [] key n
  unfolding endpoints_at
  endpoints_at-nil key (node cs eps name) = refl

  endpoints_at-set_param_name :
      (ks : List String) (key name : String) (n : Node (Endpoint R T))
      → endpoints_at ks key (set_param_name name n) ≡ endpoints_at ks key n
  unfolding endpoints_at
  endpoints_at-set_param_name [] key name (node cs eps old) = refl
  endpoints_at-set_param_name (k ∷ ks) key name (node cs eps old) = refl

  pub endpoints_at-empty_node :
      (ks : List String) (key : String) → endpoints_at ks key (empty_node {E = Endpoint R T}) ≡ []
  unfolding endpoints_at lookup find_child
  endpoints_at-empty_node [] key = refl
  endpoints_at-empty_node (k ∷ ks) key = refl

  endpoints_at-child_or_new :
      (k : String) (ks : List String) (key name : String) (cs : Children (Endpoint R T))
      (eps : GoMap (List (Endpoint R T)))
      → endpoints_at ks key (child_or_new k cs) ≡ endpoints_at (k ∷ ks) key (node cs eps name)
  unfolding endpoints_at
  endpoints_at-child_or_new k ks key name cs eps = ground (arith, endpoints_at-empty_node ks key)

  endpoints_at-set_child :
      (j k : String) (ks : List String) (key name : String) (n : Node (Endpoint R T))
      (cs : Children (Endpoint R T)) (eps : GoMap (List (Endpoint R T)))
      → endpoints_at (k ∷ ks) key (node (set_child j n cs) eps name)
        ≡ (if j == k then endpoints_at ks key n else endpoints_at (k ∷ ks) key (node cs eps name))
  unfolding endpoints_at
  endpoints_at-set_child j k ks key name n cs eps = ground (arith, find_child-set_child j k n cs)

  pub register_at-below :
      (s : String) (segments : List String) (e : Endpoint R T) (cs : Children (Endpoint R T))
      (eps : GoMap (List (Endpoint R T))) (name k : String) (ks : List String) (key : String)
      → endpoints_at (k ∷ ks) key (register_at (s ∷ segments) e (node cs eps name)) ≡ (
          if segment_key s == k
          then endpoints_at ks key (
              register_at segments e
                (set_param_name (param_name s) (child_or_new (segment_key s) cs)))
          else endpoints_at (k ∷ ks) key (node cs eps name))
  unfolding register_at
  register_at-below s segments e cs eps name k ks key =
      endpoints_at-set_child (segment_key s) k ks key name _ cs eps

  found_below :
      (s : String) (cs : Children (Endpoint R T)) (eps : GoMap (List (Endpoint R T)))
      (name k : String) (ks : List String) (key : String)
      → segment_key s ≡ k
      → endpoints_at ks key (set_param_name (param_name s) (child_or_new (segment_key s) cs))
        ≡ endpoints_at (k ∷ ks) key (node cs eps name)
  found_below s cs eps name k ks key same =
      endpoints_at-set_param_name ks key (param_name s) (child_or_new (segment_key s) cs)
      ∙ rw same (endpoints_at-child_or_new k ks key name cs eps)

  endpoints_at-register_at_nil :
      (e : Endpoint R T) (n : Node (Endpoint R T)) (ks : List String) (key : String)
      → endpoints_at ks key (register_at [] e n) ≡ (
          if same_path [] ks && endpoint_key e == key
          then insert_endpoint e (endpoints_at ks key n)
          else endpoints_at ks key n)
  unfolding endpoints_at register_at same_path
  endpoints_at-register_at_nil e (node cs eps name) [] key = ground (
    arith,
    eq_iff (endpoint_key e) key,
    lookup-insert (endpoint_key e) key
        (insert_endpoint e (or_zero [] (lookup (endpoint_key e) eps))) eps,
  )
  endpoints_at-register_at_nil e (node cs eps name) (k ∷ ks) key = refl

  endpoints_at-register_at_root :
      (s : String) (segments : List String) (e : Endpoint R T) (n : Node (Endpoint R T))
      (key : String)
      → endpoints_at [] key (register_at (s ∷ segments) e n) ≡ endpoints_at [] key n
  unfolding endpoints_at register_at
  endpoints_at-register_at_root s segments e (node cs eps name) key = refl

  -- The endpoints after a registration: under the path of the segments and the key of the endpoint
  -- the old ones with the new one inserted, under any other the old ones.
  endpoints_at-register_at :
      (segments : List String) (e : Endpoint R T) (n : Node (Endpoint R T)) (ks : List String)
      (key : String)
      → endpoints_at ks key (register_at segments e n) ≡ (
          if same_path (map segment_key segments) ks && endpoint_key e == key
          then insert_endpoint e (endpoints_at ks key n)
          else endpoints_at ks key n)
  unfolding same_path
  endpoints_at-register_at [] e n ks key = endpoints_at-register_at_nil e n ks key
  endpoints_at-register_at (s ∷ segments) e n [] key =
      endpoints_at-register_at_root s segments e n key
  endpoints_at-register_at (s ∷ segments) e (node cs eps name) (k ∷ ks) key =
      elim (Bool-cases (segment_key s == k)) [
        | inl same ↦
            rw (register_at-below s segments e cs eps name k ks key, same)
              (endpoints_at-register_at segments e _ ks key
                ∙ rw (found_below s cs eps name k ks key ((eq_iff _ _).0 same)) refl)
        | inr other ↦ rw (register_at-below s segments e cs eps name k ks key, other) refl
      ]

  -- The keys of the segments of an endpoint's path.
  abbrev pub path_keys : Endpoint R T → List String
  path_keys e = map segment_key (drop 1 (split e.request.path b'/'))

  -- registerEndpoint changes one list of the tree: the one at the path of the endpoint, with `*` for
  -- each path parameter, and under its method, GET if it has none, and its host. That list gets the
  -- endpoint inserted; every other keeps its endpoints in their order.
  pub endpoints_at-register_endpoint :
      (e : Endpoint R T) (n : Node (Endpoint R T)) (ks : List String) (key : String)
      → endpoints_at ks key (register_endpoint e n) ≡ (
          if same_path (path_keys e) ks && endpoint_key (with_method e) == key
          then insert_endpoint (with_method e) (endpoints_at ks key n)
          else endpoints_at ks key n)
  unfolding register_endpoint
  endpoints_at-register_endpoint e n ks key = endpoints_at-register_at _ (with_method e) n ks key
