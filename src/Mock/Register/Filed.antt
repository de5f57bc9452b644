-- ===== src/Mock/Register/Filed.antt =====
-- The invariant of the tree that registerEndpoint of mockgo/mock/requestHandler.go builds: every endpoint
-- stands where its path, its method and its host say.
use mockgo_server.Prelude.{
  String, ◌≡◌, ◌==◌, ◌&&◌, ◌∙◌, refl, arith, eq_iff, true, List, All, Bool-cases, inl, inr,
}
use mockgo_server.Mock.Model.{Endpoint}
use mockgo_server.Mock.Tree.{Node, empty_node}
use mockgo_server.Mock.Register.{endpoint_key, register_endpoint, with_method}
use mockgo_server.Mock.Register.Priority.{All-insert_endpoint}
use mockgo_server.Mock.Register.Content.{
  endpoints_at-empty_node, endpoints_at, path_keys, same_path, same_path_equal,
  endpoints_at-register_endpoint,
}

module _ {R T : Type 0} (P : Endpoint R T → Type 0) where
  -- The endpoint has the property, and its path and its own key are those under which it is found.
  abbrev pub Filed : List String → String → Endpoint R T → Type 0
  Filed ks key e = P e × (path_keys e ≡ ks) × (endpoint_key e ≡ key)

  -- Every endpoint of the tree has the property, and stands under its own path and its own key.
  abbrev pub IsFiled : Node (Endpoint R T) → Type 0
  IsFiled n = (ks : List String) (key : String) → All (Filed ks key) (endpoints_at ks key n)

  pub empty_node-IsFiled : IsFiled empty_node
  empty_node-IsFiled ks key = rw (endpoints_at-empty_node ks key) tt

  path_keys-with_method : (e : Endpoint R T) → path_keys (with_method e) ≡ path_keys e
  path_keys-with_method e = elim (Bool-cases (e.request.method == "")) [
    | inl bare ↦ rw bare refl
    | inr given ↦ rw given refl
  ]

  Filed-with_method :
      (e : Endpoint R T) (ks : List String) (key : String)
      → P (with_method e)
      → (same_path (path_keys e) ks && endpoint_key (with_method e) == key) ≡ true
      → Filed ks key (with_method e)
  Filed-with_method e ks key p here = (
    p,
    path_keys-with_method e ∙ same_path_equal (path_keys e) ks (ground arith),
    ground (arith, eq_iff (endpoint_key (with_method e)) key),
  )

  -- A registration keeps every endpoint in its place, and the new one stands under its own path and key.
  pub register_endpoint-IsFiled :
      (e : Endpoint R T) (n : Node (Endpoint R T))
      → P (with_method e)
      → IsFiled n
      → IsFiled (register_endpoint e n)
  register_endpoint-IsFiled e n p filed ks key =
      elim (Bool-cases (same_path (path_keys e) ks && endpoint_key (with_method e) == key)) [
        | inl here ↦
            rw (endpoints_at-register_endpoint e n ks key, here)
              (All-insert_endpoint (with_method e) (Filed ks key) (endpoints_at ks key n)
                (Filed-with_method e ks key p here) (filed ks key))
        | inr elsewhere ↦ rw (endpoints_at-register_endpoint e n ks key, elsewhere) (filed ks key)
      ]
