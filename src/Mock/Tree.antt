-- ===== src/Mock/Tree.antt =====
-- epSearchNode of mockgo/mock/model.go: the tree of path segments, over the type of the endpoints.
-- The map of children and that of endpoints are nil pointers until the first entry, so the empty map
-- stands for nil.
pub mod Lookup
use mockgo_server.Prelude.{
  String, ◌==◌, Bool, true, false, Option, none, some, List, [], GoMap, if◌then◌else◌,
}

mutual
  pub data Node (E : Type 0) : Type 0 where
    node : Children E → GoMap (List E) → String → Node E

  pub data Children (E : Type 0) : Type 0 where
    no_child : Children E
    child : String → Node E → Children E → Children E

module _ {E : Type 0} where
  -- &epSearchNode{}
  abbrev pub empty_node : Node E
  empty_node = node no_child [] ""

  abbrev pub search_nodes : Node E → Children E
  search_nodes (node cs eps name) = cs

  abbrev pub endpoints_of : Node E → GoMap (List E)
  endpoints_of (node cs eps name) = eps

  abbrev pub path_param_name : Node E → String
  path_param_name (node cs eps name) = name

  -- `sn.pathParamName = name`
  abbrev pub set_param_name : String → Node E → Node E
  set_param_name name (node cs eps old) = node cs eps name

  -- `sn.searchNodes != nil`
  abbrev pub has_child : Children E → Bool
  has_child no_child = false
  has_child (child k n cs) = true

  -- `sn.searchNodes[key]`, where a missing one is nil
  unfoldable pub find_child : String → Children E → Option (Node E)
  find_child key no_child = none
  find_child key (child k n cs) = if k == key then some n else find_child key cs

  -- `sn.searchNodes[key] = n`
  unfoldable pub set_child : String → Node E → Children E → Children E
  set_child key n no_child = child key n no_child
  set_child key n (child k m cs) =
      if k == key then child key n cs else child k m (set_child key n cs)
