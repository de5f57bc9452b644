-- ===== src/Mock/Select/Tests.antt =====
-- The choice of mockgo/mock/requestHandler.go at a concrete endpoint and request.
use mockgo_server.Prelude.{insert, lookup, ◌≡◌, refl, some}
use mockgo_server.Http.{query_get}
use mockgo_server.Mock.Tree.{set_child, find_child}
use mockgo_server.Mock.Register.{register_endpoint, with_method}
use mockgo_server.Mock.Select.First.{Selected, match_request_to_endpoint-First}
use mockgo_server.Mock.Search.{round}
use mockgo_server.Mock.Select.{match_request_to_endpoint}
use mockgo_server.Mock.Select.Recorded.{Recorded, match_request_to_endpoint-Recorded}
use mockgo_server.Mock.Samples.{services, start, greeting, ask, tree}

match_request_to_endpoint-Recorded_example :
    Recorded services 42 ask start (match_request_to_endpoint services 42 tree ask start).0
match_request_to_endpoint-Recorded_example =
    match_request_to_endpoint-Recorded services 42 tree ask start

chosen : (match_request_to_endpoint services 42 tree ask start).0.0 ≡ some (with_method greeting, 0)
unfolding match_request_to_endpoint register_endpoint round set_child find_child insert lookup
    query_get
chosen = refl

match_request_to_endpoint-First_example : Selected services tree ask (with_method greeting)
match_request_to_endpoint-First_example =
    match_request_to_endpoint-First services 42 tree ask start (with_method greeting) 0 chosen
