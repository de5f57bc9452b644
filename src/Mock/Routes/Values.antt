-- ===== src/Mock/Routes/Values.antt =====
-- The key-value store that the mock route of mockgo/mock/requestHandler.go leaves.
use text.Mathlib.Text.{starts_with}
use mockgo_server.Prelude.{ℕ, String, ◌≡◌, refl, Bool-cases, inl, inr, Option, none, some}
use mockgo_server.Http.{Request}
use mockgo_server.Http.Writer.{Writer}
use mockgo_server.Mock.Model.{Endpoint}
use mockgo_server.Mock.Tree.{Node}
use mockgo_server.Mock.Select.{Services}
use mockgo_server.Mock.Render.{Engine, Reply, answered, panicked, TemplateData, Memory}
use mockgo_server.Mock.Render.Values.{Left, render_response-Left}
use mockgo_server.Mock.Routes.{
  State, take_choice, matcher, handler, handle_choice, after_reply, memory,
}

module _ {R T K : Type 0} (services : Services R) (engine : Engine T K) where
  pub matcher-kv :
      (prefix : String) (now : ℕ) (tree : Node (Endpoint R T)) (r : Request)
      (s : State services engine)
      → (matcher services engine prefix now tree r s).2.kv ≡ s.kv
  unfolding matcher take_choice
  matcher-kv prefix now tree r s = elim (Bool-cases (starts_with r.path prefix)) [
    | inl under ↦ rw (under, matcher) refl
    | inr outside ↦ rw (outside, matcher) refl
  ]

  module _ (P : K → Type 0)
      (runs : (t : T) (d : TemplateData) (kv : K) → P kv → P (engine.execute t d kv).1) where
    abbrev pub Leaves : Reply (State services engine) → Type 0
    Leaves (answered w s) = P s.kv
    Leaves (panicked s) = P s.kv

    after_reply-Leaves :
        (s : State services engine) (reply : Reply (Memory K))
        → Left engine P runs reply
        → Leaves (after_reply services engine s reply)
    unfolding after_reply
    after_reply-Leaves s (answered w m) h = h
    after_reply-Leaves s (panicked m) h = h

    handle_choice-Leaves :
        (r : Request) (w : Writer) (s : State services engine) (choice : Option (Endpoint R T × ℕ))
        → P s.kv
        → Leaves (handle_choice services engine r w s choice)
    unfolding handle_choice memory
    handle_choice-Leaves r w s none h = h
    handle_choice-Leaves r w s (some (e, pointer)) h = after_reply-Leaves s _ (
        render_response-Left engine P runs r e pointer s.shared.path_params s.shared.query_params w
          (memory services engine s) h)

    pub handler-Leaves :
        (r : Request) (w : Writer) (s : State services engine)
        → P s.kv
        → Leaves (handler services engine r w s)
    unfolding handler
    handler-Leaves r w s h = handle_choice-Leaves r w s s.shared.choice h
