-- ===== src/Mock/Render/Answers.antt =====
-- What renderResponse of mockgo/mock/requestHandler.go answers, and what it leaves in the match.
use mockgo_server.Prelude.{
  sym, ◌∙◌, ap, ◌&&◌, Bool-cases, Option-cases, ℕ, String, ◌≡◌, refl, ◌⊎◌, inl, inr, ◌≤◌, [], ◌∷◌,
  ◌++◌, Option, none, some, GoMap, Result, ok, err, if◌then◌else◌, leb, eqb, ◌||◌, arith,
}
use mockgo_server.Prelude.Int.{ℤ, pos, negsuc}
use mockgo_server.Http.{Request}
use mathlib.Core.List.{append_assoc, append-nil}
use mockgo_server.Http.Writer.{
  write_header-write, open_writer, Writer, fresh, add_header, write_header, status_after,
  status-write, status-write_header,
}
use mockgo_server.Mock.Model.{Endpoint, Templates}
use mockgo_server.Mock.Render.{
  not, atoi, TemplateData, Engine, Reply, answered, panicked, Memory, set_response, send_status,
  add_headers, fail, create_template_data, render_response, render_data, render_headers,
  render_with_headers, render_status, render_with_status, render_body, send,
}

-- The status that a response with the code has: 1xx but 101 does not count, and the body then sends 200.
abbrev pub status_sent : ℤ → Writer → Option ℕ
status_sent (pos code) w =
    if leb 100 code && leb code 199 && not (eqb code 101)
    then status_after 200 w
    else status_after code w
status_sent (negsuc n) w = w.status

module _ {K : Type 0} where
  -- A panic leaves the matches as they were; a response has the status 500 and leaves them too, or it
  -- has the status that was rendered, which is in the match that the pointer names, and in no other.
  abbrev pub Replied : (ℤ → Type 0) → Writer → ℕ → Memory K → Reply (Memory K) → Type 0
  Replied Rendered w pointer s (panicked s') = s'.heap ≡ s.heap
  Replied Rendered w pointer s (answered w' s') =
      ((s'.heap ≡ s.heap) × (w'.status ≡ status_after 500 w))
      ⊎ ((status : ℤ) × Rendered status
          × (w'.status ≡ status_sent status w)
          × (s'.heap ≡ set_response pointer (record { status_code = status; header = [] }) s.heap))

status-fail : (message : String) (w : Writer) → (fail message w).status ≡ status_after 500 w
unfolding fail
status-fail message w =
    ground (arith, status-write message (write_header 500 w), status-write_header 500 w)

status-add_headers :
    (headers : GoMap String) (w : Writer) → (add_headers headers w).status ≡ w.status
unfolding add_headers add_header
status-add_headers [] w = refl
status-add_headers ((key, val) ∷ headers) w = status-add_headers headers (add_header key val w)

status_sent-cong :
    (status : ℤ) (w v : Writer) → w.status ≡ v.status → status_sent status w ≡ status_sent status v
status_sent-cong (pos code) w v same = rw same refl
status_sent-cong (negsuc n) w v same = same

Replied-mono :
    {K : Type 0} (A B : ℤ → Type 0)
    → ((status : ℤ) → A status → B status)
    → (w : Writer) (pointer : ℕ) (s : Memory K) (reply : Reply (Memory K))
    → Replied A w pointer s reply
    → Replied B w pointer s reply
Replied-mono A B more w pointer s (panicked s') h = h
Replied-mono A B more w pointer s (answered w' s') (inl failed) = inl failed
Replied-mono A B more w pointer s (answered w' s') (inr (status, rendered, sent, put)) =
    inr (status, more status rendered, sent, put)

module _ {T K : Type 0} (engine : Engine T K) where
  -- The number that the text of the status template is, where this text came from a run.
  abbrev pub StatusOf : Result String × K → ℤ → Type 0
  StatusOf run status =
      (text : String) × (k : K) × (run ≡ (ok text, k)) × (atoi engine.quote text ≡ ok status)

  -- The status that is rendered behind the run of the header template: its text gives headers, and the status
  -- template then renders.
  abbrev pub RenderedBehind : Templates T → TemplateData → Result String × K → ℤ → Type 0
  RenderedBehind t d run status =
      (text : String) × (k : K) × (headers : GoMap String) × (run ≡ (ok text, k))
      × (engine.unmarshal_headers text ≡ ok headers)
      × StatusOf (engine.execute t.status d k) status

  send-Replied :
      (pointer : ℕ) (status : ℤ) (body : String) (w : Writer) (s : Memory K)
      → Replied
          (λ x. x ≡ status)
          w
          pointer
          s
          (send engine pointer status body s (send_status status w))
  unfolding send send_status
  send-Replied pointer (negsuc n) body w s = elim (Option-cases w.status) [
    | inl open' ↦ rw (open', send_status) refl
    | inr (old, sent) ↦
        rw (sent, send_status) (inr (negsuc n, refl, ground (arith, status-write body w), refl))
  ]
  send-Replied pointer (pos code) body w s = elim (Option-cases w.status) [
    | inl open' ↦ elim (Bool-cases (leb 100 code && leb code 999)) [
      | inr bad ↦ rw (open', bad, send_status) refl
      | inl good ↦ elim (Bool-cases (leb code 199 && not (eqb code 101))) [
        | inl early ↦
            rw (open', good, early, send_status)
              (inr (pos code, refl, ground (arith, status-write body w), refl))
        | inr final ↦
            rw (open', good, final, send_status)
              (inr (
                pos code,
                refl,
                ground (arith, status-write body (write_header code w), status-write_header code w),
                refl,
              ))
      ]
    ]
    | inr (old, sent) ↦
        rw (sent, send_status) (inr (pos code, refl, ground (arith, status-write body w), refl))
  ]

  render_body-Replied :
      (t : Templates T) (pointer : ℕ) (d : TemplateData) (status : ℤ) (w : Writer) (s : Memory K)
      (run : Result String × K)
      → Replied (λ x. x ≡ status) w pointer s (render_body engine t pointer d status w s run)
  unfolding render_body
  render_body-Replied t pointer d status w s (err e, kv) = inl (refl, status-fail _ w)
  render_body-Replied t pointer d status w s (ok body, kv) =
      send-Replied pointer status body w (record s { kv = kv })

  render_with_status-Replied :
      (t : Templates T) (pointer : ℕ) (d : TemplateData) (w : Writer) (s : Memory K)
      (status : Result ℤ)
      → Replied (λ x. status ≡ ok x) w pointer s (render_with_status engine t pointer d w s status)
  unfolding render_with_status
  render_with_status-Replied t pointer d w s (err e) = inl (refl, status-fail _ w)
  render_with_status-Replied t pointer d w s (ok status) =
      Replied-mono (λ x. x ≡ status) (λ x. ok status ≡ ok x) (λ x same. ap ok (sym same)) w pointer
        s _
        (render_body-Replied t pointer (record d { response_status = status }) status w s
          (engine.execute t.body (record d { response_status = status }) s.kv))

  render_status-Replied :
      (t : Templates T) (pointer : ℕ) (d : TemplateData) (w : Writer) (s : Memory K)
      (run : Result String × K)
      → Replied (StatusOf run) w pointer s (render_status engine t pointer d w s run)
  unfolding render_status
  render_status-Replied t pointer d w s (err e, kv) = inl (refl, status-fail _ w)
  render_status-Replied t pointer d w s (ok text, kv) =
      Replied-mono (λ x. atoi engine.quote text ≡ ok x) (StatusOf (ok text, kv))
        (λ x number. (text, kv, refl, number)) w pointer s _
        (render_with_status-Replied t pointer d w (record s { kv = kv }) (atoi engine.quote text))

  Replied-add_headers :
      (A : ℤ → Type 0) (headers : GoMap String) (w : Writer) (pointer : ℕ) (s : Memory K)
      (reply : Reply (Memory K))
      → Replied A (add_headers headers w) pointer s reply
      → Replied A w pointer s reply
  Replied-add_headers A headers w pointer s (panicked s') h = h
  Replied-add_headers A headers w pointer s (answered w' s') (inl (kept, failed)) =
      inl (kept, ground (arith, failed, status-add_headers headers w))
  Replied-add_headers A headers w pointer s (answered w' s') (inr (status, rendered, sent, put)) =
      inr (
        status,
        rendered,
        sent ∙ status_sent-cong status (add_headers headers w) w (status-add_headers headers w),
        put,
      )

  render_headers-Replied :
      (t : Templates T) (pointer : ℕ) (d : TemplateData) (w : Writer) (s : Memory K)
      (run : Result String × K)
      → Replied (RenderedBehind t d run) w pointer s (render_headers engine t pointer d w s run)
  unfolding render_headers render_with_headers
  render_headers-Replied t pointer d w s (err e, kv) = inl (refl, status-fail _ w)
  render_headers-Replied t pointer d w s (ok text, kv) = go (engine.unmarshal_headers text) refl
    where
      go :
          (found : Result (GoMap String))
          → engine.unmarshal_headers text ≡ found
          → Replied
              (RenderedBehind t d (ok text, kv))
              w
              pointer
              s
              (render_with_headers engine t pointer d w (record s { kv = kv }) found)
      go (err e) same = inl (refl, status-fail _ w)
      go (ok headers) same =
          Replied-mono (StatusOf (engine.execute t.status d kv)) (RenderedBehind t d (ok text, kv))
            (λ x rendered. (text, kv, headers, refl, same, rendered)) w pointer s _
            (Replied-add_headers (StatusOf (engine.execute t.status d kv)) headers w pointer s _ (
              render_status-Replied t pointer d (add_headers headers w) (record s { kv = kv })
                (engine.execute t.status d kv)))

add_headers_lem :
    (headers old : GoMap String)
    → add_headers headers (open_writer old) ≡ open_writer (old ++ headers)
unfolding add_headers add_header
add_headers_lem [] old = ap open_writer (sym (append-nil old))
add_headers_lem ((key, val) ∷ headers) old =
    add_headers_lem headers (old ++ (key, val) ∷ [])
    ∙ ap open_writer (append_assoc old ((key, val) ∷ []) headers)

send_status_lem :
    (code : ℕ) (header : GoMap String)
    → 200 ≤ code
    → code ≤ 999
    → send_status (pos code) (open_writer header) ≡ some (write_header code (open_writer header))
unfolding send_status
send_status_lem code header low high = ground arith

module _ {R T K : Type 0} (engine : Engine T K) (r : Request) (e : Endpoint R T) (pointer : ℕ)
    (path_params query_params : GoMap String) where
  -- The status that is rendered for the request: its data are read, the endpoint's header template renders and its
  -- text gives headers, and then the text of its status template is the number.
  abbrev pub RenderedStatus : K → ℤ → Type 0
  RenderedStatus kv status =
      (t : Templates T) × (d : TemplateData) × (e.response.template ≡ some t)
      × (create_template_data engine r path_params query_params ≡ ok d)
      × RenderedBehind engine t d (engine.execute t.header d kv) status

  -- For every request, endpoint and state, and whatever the templates do: a panic leaves the matches as
  -- they were; a response has the status 500, unless one was sent before, and leaves the matches too;
  -- or the number that the endpoint's status template rendered, behind its header template, is put in the match that
  -- the pointer names, and it is the status of the response, unless one was sent before: but for a number from 100
  -- to 199 other than 101 the response has the status 200.
  pub render_response-Replied :
      (w : Writer) (s : Memory K)
      → Replied
          (RenderedStatus s.kv)
          w
          pointer
          s
          (render_response engine r e pointer path_params query_params w s)
  unfolding render_response add_header add_headers render_data
  render_response-Replied w s =
      go e.response.template (create_template_data engine r path_params query_params) refl refl
    where
      go :
          (t : Option (Templates T)) (d : Result TemplateData)
          → e.response.template ≡ t
          → create_template_data engine r path_params query_params ≡ d
          → Replied
              (RenderedStatus s.kv)
              w
              pointer
              s
              (render_data engine t pointer (add_header "endpoint-Id" e.id w) s d)
      go t (err problem) ht hd = inl (refl, status-fail _ (add_header "endpoint-Id" e.id w))
      go none (ok d) ht hd = refl
      go (some t) (ok d) ht hd =
          Replied-mono (RenderedBehind engine t d (engine.execute t.header d s.kv))
            (RenderedStatus s.kv) (λ x rendered. (t, d, ht, hd, rendered)) w pointer s _
            (Replied-add_headers engine (RenderedBehind engine t d (engine.execute t.header d s.kv))
              (("endpoint-Id", e.id) ∷ []) w pointer s _
              (render_headers-Replied engine t pointer d (add_header "endpoint-Id" e.id w) s
                (engine.execute t.header d s.kv)))

  -- Where the templates render and give headers, a status from 200 to 999 and a body, the response has
  -- this status, the endpoint's id and these headers, and the body, unless the status is 204 or 304,
  -- which have none; the status is put in the match, and the key-value store is as the templates left
  -- it, which run in the order header, status, body.
  pub render_response_lem :
      (t : Templates T) (d : TemplateData) (s : Memory K) (header status body : String)
      (headers : GoMap String) (code : ℕ) (k1 k2 k3 : K)
      → e.response.template ≡ some t
      → create_template_data engine r path_params query_params ≡ ok d
      → engine.execute t.header d s.kv ≡ (ok header, k1)
      → engine.unmarshal_headers header ≡ ok headers
      → engine.execute t.status d k1 ≡ (ok status, k2)
      → atoi engine.quote status ≡ ok (pos code)
      → engine.execute t.body (record d { response_status = pos code }) k2 ≡ (ok body, k3)
      → 200 ≤ code
      → code ≤ 999
      → render_response engine r e pointer path_params query_params fresh s
        ≡ answered
            (record {
              header = ("endpoint-Id", e.id) ∷ headers;
              status = some code;
              body = if eqb code 204 || eqb code 304 then "" else body;
              fault = none;
            })
            (record {
              heap = set_response pointer (record { status_code = pos code; header = [] }) s.heap;
              kv = k3;
            })
  unfolding render_response render_data render_headers render_with_headers render_status
      render_with_status render_body send add_header
  render_response_lem t d s header status body headers code k1 k2 k3 ht hd hh hm hs ha hb low high =
      let named : GoMap String = ("endpoint-Id", e.id) ∷ [] in
      let w1 = open_writer named in
      let w2 = open_writer (("endpoint-Id", e.id) ∷ headers) in
      let made = create_template_data engine r path_params query_params in
      let d' = record d { response_status = pos code } in
      ap (λ x. render_data engine x pointer w1 s made) ht
      ∙ ap (λ x. render_data engine (some t) pointer w1 s x) hd
      ∙ ap (λ x. render_headers engine t pointer d w1 s x) hh
      ∙ ap (λ x. render_with_headers engine t pointer d w1 (record s { kv = k1 }) x) hm
      ∙ ap
          (λ x.
            render_status engine t pointer d x (record s { kv = k1 })
              (engine.execute t.status d k1))
          (add_headers_lem headers named)
      ∙ ap (λ x. render_status engine t pointer d w2 (record s { kv = k1 }) x) hs
      ∙ ap (λ x. render_with_status engine t pointer d w2 (record s { kv = k2 }) x) ha
      ∙ ap (λ x. render_body engine t pointer d' (pos code) w2 (record s { kv = k2 }) x) hb
      ∙ ap (λ x. send engine pointer (pos code) body (record s { kv = k3 }) x)
          (send_status_lem code (("endpoint-Id", e.id) ∷ headers) low high)
      ∙ ap
          (λ x. answered x (record {
            heap = set_response pointer (record { status_code = pos code; header = [] }) s.heap;
            kv = k3;
          }))
          (write_header-write code body (("endpoint-Id", e.id) ∷ headers) low)
