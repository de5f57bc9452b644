-- ===== src/Mock/Tree/Lookup.antt =====
-- The children of a node of mockgo/mock/model.go as a map.
use mockgo_server.Prelude.{String, ◌≡◌, refl, ◌==◌, eq_iff, true, some, arith, if◌then◌else◌}
use mockgo_server.Mock.Tree.{Node, Children, no_child, child, has_child, find_child, set_child}

module _ {E : Type 0} where
  pub find_child-set_child :
      (key j : String) (n : Node E) (cs : Children E)
      → find_child j (set_child key n cs) ≡ (if key == j then some n else find_child j cs)
  unfolding find_child set_child
  find_child-set_child key j n no_child = refl
  find_child-set_child key j n (child k m cs) =
      ground (arith, eq_iff key j, eq_iff k key, eq_iff k j, find_child-set_child key j n cs)

  pub has_child-set_child :
      (key : String) (n : Node E) (cs : Children E) → has_child (set_child key n cs) ≡ true
  unfolding set_child
  has_child-set_child key n no_child = refl
  has_child-set_child key n (child k m cs) = ground arith
