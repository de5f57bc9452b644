-- ===== src/Mock/Render/Tests.antt =====
-- The rendering of mockgo/mock/requestHandler.go with templates that are their own text.
use mockgo_server.Prelude.{codes, ℕ, suc, String, ◌≡◌, refl, arith, [], ◌∷◌, none, some, ok, err}
use mockgo_server.Prelude.Int.{pos}
use mockgo_server.Http.{read_all, Request, unread}
use mockgo_server.Http.Writer.{fresh}
use mockgo_server.Matches.{Match}
use mockgo_server.Mock.Model.{Endpoint, Templates, MatchRequest}
use mockgo_server.Mock.Render.{
  set_response, TemplateData, Engine, Memory, answered, create_template_data, render_response,
}
use mockgo_server.Mock.Render.Answers.{
  Replied, RenderedStatus, render_response-Replied, render_response_lem,
}
use mockgo_server.Mock.Select.{first_values}
use mockgo_server.Prelude.Decimal.{atoi}

-- Each run of a template is counted in the key-value store.
abbrev engine : Engine String ℕ
engine = record {
  execute = λ t d k. (ok t, suc k);
  unmarshal_headers = λ text. ok (("Content-Type", "text/plain") ∷ []);
  unmarshal_object = λ text. err "no object";
  quote = λ text. text;
}

abbrev templates : Templates String
templates = record { body = "hello"; status = "201"; header = "" }

abbrev wanted : MatchRequest String
wanted = record {
  host = "";
  method = "GET";
  path = "/hello";
  query = [];
  headers = [];
  body = "hi";
  body_regexp = some "hi";
}

abbrev endpoint : Endpoint String String
endpoint = record {
  id = "1";
  mock = none;
  prio = pos 0;
  request = wanted;
  response = record {
    template = some templates;
    status_code = "201";
    headers = "";
    body = "hello";
    body_filename = "";
  };
}

abbrev ask : Request
ask = record {
  method = "GET";
  url = "/hello";
  path = "/hello";
  url_host = "";
  host = "localhost";
  query = [];
  header = [];
  body = unread "hi";
  vars = [];
  basic_auth = none;
}

abbrev hit : Match
hit = record {
  endpoint_id = "1";
  timestamp = 1;
  actual_request = record { method = "GET"; url = "/hello"; header = []; host = "localhost" };
  actual_response = none;
}

abbrev memory : Memory ℕ
memory = record { heap = hit ∷ []; kv = 0 }

abbrev seen : TemplateData
seen = record {
  request_path_params = [];
  request_query_params = [];
  request_header = [];
  request_url = "/hello";
  request_path = "/hello";
  request_host = "";
  request_body = "hi";
  request_body_json_data = none;
  response_status = pos 0;
}

render_response-Replied_example :
    Replied
      (RenderedStatus engine ask endpoint 0 [] [] memory.kv)
      fresh
      0
      memory
      (render_response engine ask endpoint 0 [] [] fresh memory)
render_response-Replied_example = render_response-Replied engine ask endpoint 0 [] [] fresh memory

render_response_lem_example :
    render_response engine ask endpoint 0 [] [] fresh memory
    ≡ answered
        (record {
          header = ("endpoint-Id", "1") ∷ ("Content-Type", "text/plain") ∷ [];
          status = some 201;
          body = "hello";
          fault = none;
        })
        (record {
          heap =
              record hit { actual_response = some (record { status_code = pos 201; header = [] }) }
              ∷ [];
          kv = 3;
        })
unfolding create_template_data read_all first_values atoi codes set_response
render_response_lem_example =
    render_response_lem engine ask endpoint 0 [] [] templates seen memory "" "201" "hello"
      (("Content-Type", "text/plain") ∷ []) 201 1 2 3 refl refl refl refl refl refl refl
      (omega arith) (omega arith)
