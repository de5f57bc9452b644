-- ===== src/Mock/Routes/Path.antt =====
-- The matcher of the mock route of mockgo/mock/requestHandler.go leaves the path of the request as it is.
use text.Mathlib.Text.{starts_with}
use mockgo_server.Prelude.{ℕ, String, ◌≡◌, refl, Bool-cases, inl, inr}
use mockgo_server.Http.{Request}
use mockgo_server.Mock.Model.{Endpoint}
use mockgo_server.Mock.Tree.{Node}
use mockgo_server.Mock.Select.{Services}
use mockgo_server.Mock.Select.Path.{match_request_to_endpoint-path}
use mockgo_server.Mock.Render.{Engine}
use mockgo_server.Mock.Routes.{State, take_choice, matcher}

module _ {R T K : Type 0} (services : Services R) (engine : Engine T K) where
  pub matcher-path :
      (prefix : String) (now : ℕ) (tree : Node (Endpoint R T)) (r : Request)
      (s : State services engine)
      → (matcher services engine prefix now tree r s).1.path ≡ r.path
  unfolding matcher take_choice
  matcher-path prefix now tree r s = elim (Bool-cases (starts_with r.path prefix)) [
    | inl under ↦ rw (under, matcher) refl
    | inr outside ↦
        rw (outside, matcher) (match_request_to_endpoint-path services now tree r s.world)
  ]
