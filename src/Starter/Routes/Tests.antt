-- ===== src/Starter/Routes/Tests.antt =====
-- A request without credentials to the API of mockgo/starter/starter.go.
use mockgo_server.Prelude.{◌≡◌, refl, false, ◌⊎◌, some, none≢some}
use mockgo_server.Http.Writer.{fresh, write_header}
use mockgo_server.Util.{is_protected}
use mockgo_server.Mock.Tree.{empty_node}
use mockgo_server.Mock.Routes.{matcher}
use mockgo_server.Mock.Samples.{services}
use mockgo_server.Starter.Samples.{engine, program, config, idle, ask, prefix_literal}
use mockgo_server.Starter.Server.{Server}
use mockgo_server.Starter.Routes.{serve_request}
use mockgo_server.Starter.Routes.Guarded.{serve_request-Refused}
use mockgo_server.Starter.Routes.Outside.{serve_request-outside, mock_answer}

abbrev server : Server program
server = record { tree = empty_node; mock = idle }

serve_request-Refused_example :
    ((serve_request program config 42 (ask "POST" "/__/reload") server).1
      ≡ record { server = server; aborted = false })
    × (((serve_request program config 42 (ask "POST" "/__/reload") server).0.status ≡ some 401)
        ⊎ ((serve_request program config 42 (ask "POST" "/__/reload") server).0
            ≡ write_header 404 fresh))
unfolding is_protected
serve_request-Refused_example =
    serve_request-Refused program config (ask "POST" "/__/reload") refl
      (none≢some ("mockgo", "secret")) 42 server

serve_request-outside_example :
    serve_request program config 42 (ask "GET" "/hello") server
    ≡ mock_answer program config prefix_literal
        (matcher services engine "/__" 42 empty_node (ask "GET" "/hello") idle)
        server
serve_request-outside_example =
    serve_request-outside program config prefix_literal 42 (ask "GET" "/hello") server refl refl
