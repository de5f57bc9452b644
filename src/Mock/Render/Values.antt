-- ===== src/Mock/Render/Values.antt =====
-- The key-value store that renderResponse of mockgo/mock/requestHandler.go leaves.
use mockgo_server.Prelude.{ℕ, String, Option, none, some, GoMap, Result, ok, err}
use mockgo_server.Prelude.Int.{ℤ}
use mockgo_server.Http.{Request}
use mockgo_server.Http.Writer.{Writer, add_header}
use mockgo_server.Mock.Model.{Endpoint, Templates}
use mockgo_server.Mock.Render.{
  atoi, TemplateData, Engine, Reply, answered, panicked, Memory, send_status, add_headers,
  create_template_data, render_response, render_data, render_headers, render_with_headers,
  render_status, render_with_status, render_body, send,
}

module _ {T K : Type 0} (engine : Engine T K) (P : K → Type 0)
    (runs : (t : T) (d : TemplateData) (kv : K) → P kv → P (engine.execute t d kv).1) where
  -- The key-value store behind a reply.
  abbrev pub Left : Reply (Memory K) → Type 0
  Left (answered w s) = P s.kv
  Left (panicked s) = P s.kv

  send-Left :
      (pointer : ℕ) (status : ℤ) (body : String) (s : Memory K) (sent : Option Writer)
      → P s.kv
      → Left (send engine pointer status body s sent)
  unfolding send
  send-Left pointer status body s none h = h
  send-Left pointer status body s (some w) h = h

  module _ (t : Templates T) (pointer : ℕ) where
    render_body-Left :
        (d : TemplateData) (status : ℤ) (w : Writer) (s : Memory K) (run : Result String × K)
        → P run.1
        → Left (render_body engine t pointer d status w s run)
    unfolding render_body
    render_body-Left d status w s (err e, kv) h = h
    render_body-Left d status w s (ok body, kv) h =
        send-Left pointer status body (record s { kv = kv }) (send_status status w) h

    render_with_status-Left :
        (d : TemplateData) (w : Writer) (s : Memory K) (status : Result ℤ)
        → P s.kv
        → Left (render_with_status engine t pointer d w s status)
    unfolding render_with_status
    render_with_status-Left d w s (err e) h = h
    render_with_status-Left d w s (ok status) h =
        render_body-Left (record d { response_status = status }) status w s _
          (runs t.body (record d { response_status = status }) s.kv h)

    render_status-Left :
        (d : TemplateData) (w : Writer) (s : Memory K) (run : Result String × K)
        → P run.1
        → Left (render_status engine t pointer d w s run)
    unfolding render_status
    render_status-Left d w s (err e, kv) h = h
    render_status-Left d w s (ok text, kv) h =
        render_with_status-Left d w (record s { kv = kv }) (atoi engine.quote text) h

    render_with_headers-Left :
        (d : TemplateData) (w : Writer) (s : Memory K) (headers : Result (GoMap String))
        → P s.kv
        → Left (render_with_headers engine t pointer d w s headers)
    unfolding render_with_headers
    render_with_headers-Left d w s (err e) h = h
    render_with_headers-Left d w s (ok headers) h =
        render_status-Left d (add_headers headers w) s _ (runs t.status d s.kv h)

    render_headers-Left :
        (d : TemplateData) (w : Writer) (s : Memory K) (run : Result String × K)
        → P run.1
        → Left (render_headers engine t pointer d w s run)
    unfolding render_headers
    render_headers-Left d w s (err e, kv) h = h
    render_headers-Left d w s (ok text, kv) h =
        render_with_headers-Left d w (record s { kv = kv }) (engine.unmarshal_headers text) h

  render_data-Left :
      (t : Option (Templates T)) (pointer : ℕ) (w : Writer) (s : Memory K)
      (found : Result TemplateData)
      → P s.kv
      → Left (render_data engine t pointer w s found)
  unfolding render_data
  render_data-Left t pointer w s (err e) h = h
  render_data-Left none pointer w s (ok d) h = h
  render_data-Left (some t) pointer w s (ok d) h =
      render_headers-Left t pointer d w s _ (runs t.header d s.kv h)

  pub render_response-Left :
      {R : Type 0} (r : Request) (e : Endpoint R T) (pointer : ℕ)
      (path_params query_params : GoMap String) (w : Writer) (s : Memory K)
      → P s.kv
      → Left (render_response engine r e pointer path_params query_params w s)
  unfolding render_response
  render_response-Left r e pointer path_params query_params w s h =
      render_data-Left e.response.template pointer (add_header "endpoint-Id" e.id w) s
        (create_template_data engine r path_params query_params) h
