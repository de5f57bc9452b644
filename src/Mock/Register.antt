-- ===== src/Mock/Register.antt =====
-- registerEndpoint of mockgo/mock/requestHandler.go.
pub mod Priority
pub mod Content
pub mod Filed
use text.Mathlib.Text.{starts_with}
use mockgo_server.Prelude.{
  ℕ, suc, String, ◌==◌, Bool, ◌&&◌, List, [], ◌∷◌, ◌++◌, Option, none, some, GoMap, lookup, insert,
  or_zero, eqb, length, take, drop, if◌then◌else◌, split, has_suffix, tail_of, init_of, ◌<>◌,
}
use mockgo_server.Prelude.Int.{lt_int}
use mockgo_server.Mock.Model.{Endpoint}
use mockgo_server.Mock.Tree.{
  Node, node, Children, empty_node, set_param_name, find_child, set_child,
}

-- A segment `{name}` is a path parameter.
unfoldable pub is_param : String → Bool
unfolding has_suffix
is_param segment = starts_with segment "{" && has_suffix segment "}"

-- The name of the path parameter, "" for any other segment.
unfoldable pub param_name : String → String
unfolding is_param tail_of init_of
param_name segment = if is_param segment then tail_of (init_of segment) else ""

-- The key of the segment among the children.
unfoldable pub segment_key : String → String
unfolding is_param
segment_key segment = if is_param segment then "*" else segment

-- A write into a slice, `l[i] = v`, for an index in range.
abbrev pub set {ℓ} : {A : Type ℓ} → List A → ℕ → A → List A
set [] i v = []
set (x ∷ xs) ℕ.zero v = v ∷ xs
set (x ∷ xs) (suc i) v = x ∷ set xs i v

module _ {R T : Type 0} where
  -- The loop that looks for the first endpoint with a lower priority; 0 if there is none.
  insert_index : Endpoint R T → ℕ → List (Endpoint R T) → ℕ
  insert_index e i [] = 0
  insert_index e i (ep ∷ eps) =
      let rest = insert_index e (suc i) eps in if lt_int ep.prio e.prio then i else rest

  -- The insertion into the slice: `append(l[:i+1], l[i:]...)`, and the write of the index.
  unfoldable pub insert_endpoint : Endpoint R T → List (Endpoint R T) → List (Endpoint R T)
  unfolding insert_index
  insert_endpoint e l =
      let i = insert_index e 0 l in
      if eqb (length l) i then l ++ e ∷ [] else set (take (suc i) l ++ drop i l) i e

  unfoldable pub endpoint_key : Endpoint R T → String
  endpoint_key e =
      if e.request.host == ""
      then e.request.method
      else "+" <> e.request.method <> "-" <> e.request.host

  unfoldable pub add_endpoint :
      Endpoint R T → GoMap (List (Endpoint R T)) → GoMap (List (Endpoint R T))
  unfolding insert_endpoint endpoint_key
  add_endpoint e m =
      insert (endpoint_key e) (insert_endpoint e (or_zero [] (lookup (endpoint_key e) m))) m

  abbrev pub child_or_new : String → Children (Endpoint R T) → Node (Endpoint R T)
  child_or_new key cs = elim (find_child key cs) [ none ↦ empty_node | some n ↦ n ]

  -- The walk down the segments, which makes what is missing, and the endpoint at its end.
  unfoldable pub register_at :
      List String → Endpoint R T → Node (Endpoint R T) → Node (Endpoint R T)
  unfolding add_endpoint segment_key param_name
  register_at [] e (node cs eps name) = node cs (add_endpoint e eps) name
  register_at (segment ∷ segments) e (node cs eps name) =
      node
        (set_child (segment_key segment)
          (register_at segments e
            (set_param_name (param_name segment) (child_or_new (segment_key segment) cs)))
          cs)
        eps name

  -- The method is GET where none is given.
  abbrev pub with_method : Endpoint R T → Endpoint R T
  with_method e =
      if e.request.method == ""
      then record e { request = record e.request { method = "GET" } }
      else e

  -- registerEndpoint
  unfoldable pub register_endpoint : Endpoint R T → Node (Endpoint R T) → Node (Endpoint R T)
  unfolding register_at split
  register_endpoint e sn = register_at (drop 1 (split e.request.path b'/')) (with_method e) sn
