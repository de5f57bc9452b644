-- ===== src/Mock/Tests.antt =====
-- The theorems on mockgo/mock/requestHandler.go at concrete endpoints, trees and requests.
use mockgo_server.Prelude.{
  ne_eq, insert, ◌==◌, ◌&&◌, ℕ, String, ◌≡◌, refl, List, [], ◌∷◌, none, some, if◌then◌else◌, lookup,
  or_zero, length, split,
}
use mockgo_server.Prelude.Int.{ℤ, pos, negsuc}
use mockgo_server.Mock.Model.{Endpoint}
use mockgo_server.Mock.Tree.{find_child, Node, node, empty_node, child, no_child, endpoints_of}
use mockgo_server.Mock.Register.{
  insert_endpoint, register_endpoint, segment_key, endpoint_key, with_method,
}
use mockgo_server.Mock.Register.Priority.{
  has_lower, place, IsSorted, insert_endpoint-eq-place, insert_endpoint-IsSorted,
}
use mockgo_server.Mock.Register.Content.{
  same_path, endpoints_at, path_keys, endpoints_at-register_endpoint,
}
use mockgo_server.Mock.Search.{round, search_path, path_segments, reached}
use mockgo_server.Mock.Search.Total.{Ends, search_path-Ends}
use mockgo_server.Mock.Search.Fitting.{Fits, node_at, until_empty}
use mockgo_server.Mock.Search.Sound.{search_path-Fits}
use mockgo_server.Mock.Search.Registered.{search_path-register_endpoint}

abbrev sample : String → String → ℤ → Endpoint String String
sample id path prio = record {
  id = id;
  mock = none;
  prio = prio;
  request = record {
    host = "";
    method = "";
    path = path;
    query = [];
    headers = [];
    body = "";
    body_regexp = none;
  };
  response = record {
    template = none;
    status_code = "200";
    headers = "";
    body = "";
    body_filename = "";
  };
}

abbrev high : Endpoint String String
high = sample "high" "/hello/world" (pos 2)

abbrev normal : Endpoint String String
normal = sample "normal" "/hello/{name}" (pos 0)

abbrev low : Endpoint String String
low = sample "low" "/hello/world" (negsuc 0)

insert_endpoint-eq-place_example :
    insert_endpoint high (normal ∷ [])
    ≡ (if has_lower high (normal ∷ []) then place high (normal ∷ []) else high ∷ normal ∷ [])
insert_endpoint-eq-place_example = insert_endpoint-eq-place high (normal ∷ [])

insert_endpoint-IsSorted_example : IsSorted (insert_endpoint normal (high ∷ low ∷ []))
insert_endpoint-IsSorted_example =
    insert_endpoint-IsSorted normal (high ∷ low ∷ []) refl ((refl, tt), (tt, tt))

endpoints_at-register_endpoint_example :
    endpoints_at ("hello" ∷ "*" ∷ []) "GET" (register_endpoint normal empty_node) ≡ (
      if same_path (path_keys normal) ("hello" ∷ "*" ∷ [])
        && endpoint_key (with_method normal) == "GET"
      then insert_endpoint (with_method normal) (endpoints_at ("hello" ∷ "*" ∷ []) "GET" empty_node)
      else endpoints_at ("hello" ∷ "*" ∷ []) "GET" empty_node)
endpoints_at-register_endpoint_example =
    endpoints_at-register_endpoint normal empty_node ("hello" ∷ "*" ∷ []) "GET"

search_path-register_endpoint_example :
    (m : Node (Endpoint String String)) × (search_path
        (register_endpoint high empty_node)
        "/hello/world"
      ≡ reached m [])
    × (or_zero [] (lookup (endpoint_key (with_method high)) (endpoints_of m))
        ≡ insert_endpoint (with_method high) (
            endpoints_at
              (path_segments "/hello/world")
              (endpoint_key (with_method high))
              empty_node))
unfolding split segment_key
search_path-register_endpoint_example =
    search_path-register_endpoint high empty_node (refl, (refl, tt))
      (ne_eq "hello" "" refl, (ne_eq "world" "" refl, tt))

abbrev leaf : Node ℕ
leaf = node no_child (("GET", 7 ∷ []) ∷ []) ""

abbrev wild : Node ℕ
wild = node (child "*" (node (child "b" leaf no_child) [] "name") no_child) [] ""

search_path-Ends_example : Ends (length (path_segments "/a/c")) (search_path wild "/a/c")
search_path-Ends_example = search_path-Ends wild "/a/c"

search_path-Fits_example :
    (ks : List String) × (node_at ks wild ≡ some leaf)
    × Fits ks (until_empty (path_segments "/a/b"))
unfolding search_path round split find_child insert
search_path-Fits_example = search_path-Fits wild leaf "/a/b" (("name", "a") ∷ []) refl
