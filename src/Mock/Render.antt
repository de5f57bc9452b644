-- ===== src/Mock/Render.antt =====
-- renderResponse and createResponseTemplateData of mockgo/mock/requestHandler.go.
pub mod Answers
pub mod Body
pub mod Values
mod Tests
use mockgo_server.Prelude.{
  ℕ, zero, suc, ◌<>◌, String, ◌&&◌, not, List, [], ◌∷◌, Option, none, some, GoMap, Result, ok, err,
  if◌then◌else◌, leb, eqb,
}
use mockgo_server.Prelude.Int.{ℤ, pos, negsuc}
use mockgo_server.Prelude.Decimal.{atoi}
use mockgo_server.Http.{Request, read_all}
use mockgo_server.Http.Writer.{Writer, add_header, write_header, write}
use mockgo_server.Kvstore.{Value}
use mockgo_server.Matches.{Match, ActualResponse}
use mockgo_server.Mock.Model.{Endpoint, Templates}
use mockgo_server.Mock.Select.{first_values}

-- responseTemplateData. The map `KVStore` is never set, so it has no field here.
pub record TemplateData : Type 0 where
  pub request_path_params : GoMap String
  pub request_query_params : GoMap String
  pub request_header : GoMap String
  pub request_url : String
  pub request_path : String
  pub request_host : String
  pub request_body : String
  pub request_body_json_data : Option (GoMap Value)
  pub response_status : ℤ

-- What is used of the packages text/template, yaml, encoding/json and strconv. A template can read and
-- write the key-value store, whose state is of type K; a run of it ends in a text or an error.
pub record Engine (T K : Type 0) : Type 0 where
  pub execute : T → TemplateData → K → Result String × K
  pub unmarshal_headers : String → Result (GoMap String)
  pub unmarshal_object : String → Result (Option (GoMap Value))
  pub quote : String → String

-- What becomes of a call of the handler: a response and the state, or a panic.
pub data Reply (S : Type 0) : Type 0 where
  answered : Writer → S → Reply S
  panicked : S → Reply S

-- The matches behind the pointers, and the key-value store.
pub record Memory (K : Type 0) : Type 0 where
  pub heap : List Match
  pub kv : K

-- `match.ActualResponse = response`, through the pointer.
unfoldable pub set_response : ℕ → ActualResponse → List Match → List Match
set_response i response [] = []
set_response zero response (m ∷ ms) = record m { actual_response = some response } ∷ ms
set_response (suc i) response (m ∷ ms) = m ∷ set_response i response ms

-- WriteHeader(code) for any code: it panics below 100 and above 999; 1xx but 101 is sent at once and
-- leaves the status open.
unfoldable pub send_status : ℤ → Writer → Option Writer
send_status (negsuc n) w = elim w.status [ none ↦ none | some old ↦ some w ]
send_status (pos code) w = elim w.status [
  | some old ↦ some w
  | none ↦
      if leb 100 code && leb code 999
      then some (if leb code 199 && not (eqb code 101) then w else write_header code w)
      else none
]

-- for key, val := range headers { writer.Header().Add(key, val) }
unfoldable pub add_headers : GoMap String → Writer → Writer
add_headers [] w = w
add_headers ((key, val) ∷ headers) w = add_headers headers (add_header key val w)

-- writer.WriteHeader(http.StatusInternalServerError); fmt.Fprintf(writer, "…: %v", err)
unfoldable pub fail : String → Writer → Writer
fail message w = (write message (write_header 500 w)).1

module _ {T K : Type 0} (engine : Engine T K) where
  json_data : Result (Option (GoMap Value)) → Option (GoMap Value)
  json_data (ok m) = m
  json_data (err e) = none

  with_body : Result String → TemplateData → Result TemplateData
  unfolding json_data
  with_body (err e) info = err e
  with_body (ok body) info = ok (record info {
    request_body = body;
    request_body_json_data = json_data (engine.unmarshal_object body);
  })

  -- createResponseTemplateData; a body that is no JSON object leaves the data nil
  unfoldable pub create_template_data : Request → GoMap String → GoMap String → Result TemplateData
  unfolding with_body
  create_template_data r path_params query_params = with_body (read_all r.body).0 (record {
    request_path_params = path_params;
    request_query_params = query_params;
    request_header = first_values r.header;
    request_url = r.url;
    request_path = r.path;
    request_host = r.url_host;
    request_body = "";
    request_body_json_data = none;
    response_status = pos 0;
  })

  -- The end of renderResponse: the status and the body are sent, and the match gets its response.
  send : ℕ → ℤ → String → Memory K → Option Writer → Reply (Memory K)
  unfolding set_response
  send pointer status body s none = panicked s
  send pointer status body s (some w) = answered (write body w).1 (record s {
    heap = set_response pointer (record { status_code = status; header = [] }) s.heap;
  })

  render_body :
      Templates T → ℕ → TemplateData → ℤ → Writer → Memory K → Result String × K → Reply (Memory K)
  unfolding send send_status fail
  render_body t pointer info status w s (err e, kv) =
      answered (fail ("Error rendering response body: " <> e) w) (record s { kv = kv })
  render_body t pointer info status w s (ok body, kv) =
      send pointer status body (record s { kv = kv }) (send_status status w)

  render_with_status :
      Templates T → ℕ → TemplateData → Writer → Memory K → Result ℤ → Reply (Memory K)
  unfolding render_body fail
  render_with_status t pointer info w s (err e) =
      answered (fail ("Error converting response status: " <> e) w) s
  render_with_status t pointer info w s (ok status) =
      let info' = record info { response_status = status } in
      render_body t pointer info' status w s (engine.execute t.body info' s.kv)

  render_status :
      Templates T → ℕ → TemplateData → Writer → Memory K → Result String × K → Reply (Memory K)
  unfolding render_with_status fail
  render_status t pointer info w s (err e, kv) =
      answered (fail ("Error rendering response status: " <> e) w) (record s { kv = kv })
  render_status t pointer info w s (ok text, kv) =
      render_with_status t pointer info w (record s { kv = kv }) (atoi engine.quote text)

  render_with_headers :
      Templates T → ℕ → TemplateData → Writer → Memory K → Result (GoMap String) → Reply (Memory K)
  unfolding render_status fail
  render_with_headers t pointer info w s (err e) =
      answered (fail ("Error unmarshalling response headers: " <> e) w) s
  render_with_headers t pointer info w s (ok headers) =
      render_status t pointer info (add_headers headers w) s (engine.execute t.status info s.kv)

  render_headers :
      Templates T → ℕ → TemplateData → Writer → Memory K → Result String × K → Reply (Memory K)
  unfolding render_with_headers fail
  render_headers t pointer info w s (err e, kv) =
      answered (fail ("Error rendering response headers: " <> e) w) (record s { kv = kv })
  render_headers t pointer info w s (ok text, kv) =
      render_with_headers t pointer info w (record s { kv = kv }) (engine.unmarshal_headers text)

  -- A nil template panics in ExecuteTemplate.
  render_data :
      Option (Templates T) → ℕ → Writer → Memory K → Result TemplateData → Reply (Memory K)
  unfolding render_headers fail
  render_data t pointer w s (err e) = answered (fail ("Error rendering response: " <> e) w) s
  render_data none pointer w s (ok info) = panicked s
  render_data (some t) pointer w s (ok info) =
      render_headers t pointer info w s (engine.execute t.header info s.kv)

module _ {R T K : Type 0} (engine : Engine T K) where
  -- renderResponse, for an endpoint and the pointer to its match
  unfoldable pub render_response :
      Request
      → Endpoint R T
      → ℕ
      → GoMap String
      → GoMap String
      → Writer
      → Memory K
      → Reply (Memory K)
  unfolding render_data
  render_response r e pointer path_params query_params w s =
      render_data engine e.response.template pointer (add_header "endpoint-Id" e.id w) s
        (create_template_data engine r path_params query_params)
