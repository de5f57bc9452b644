-- ===== src/Starter/Routes/Noted.antt =====
-- The outcomes that requests outside the prefix of the API leave in the memory of the server of
-- mockgo/starter/starter.go.
use text.Mathlib.Text.{starts_with}
use mockgo_server.Starter.Routes.Clean.{serve_request-unclean}
use mockgo_server.Prelude.{
  Bool-cases, ℕ, String, ◌<>◌, ◌≡◌, ◌∙◌, refl, ap, true, false, Bool, ◌⊎◌, ◌≢◌, inl, inr,
  if◌then◌else◌, List, [], ◌∷◌, some, GoMap, All,
}
use mockgo_server.Http.{Request}
use mockgo_server.Http.Writer.{fresh}
use mockgo_server.Mock.Render.{Reply, answered, panicked}
use mockgo_server.Mock.Routes.{State, matcher, handler}
use mockgo_server.Mock.Routes.Outcomes.{Outcome, Notes-mono}
use mockgo_server.Mock.Routes.Recorded.{
  seen, note_all, state_of, handled, ChosenOnce, seen-matcher, seen-handled,
}
use mockgo_server.Util.{is_protected}
use mockgo_server.Starter.Routes.Guarded.{under, serve_request-Refused}
use mockgo_server.Starter.{BasicConfiguration}
use mockgo_server.Starter.Server.{Program, Server, Mux}
use mockgo_server.Starter.Routes.{after_mock, serve_request, serve_requests}
use mockgo_server.Starter.Routes.Outside.{mock_answer, serve_request-outside}
use mockgo_server.Mock.Routes.Journal.{Journal}

-- The requests with a clean path outside the prefix.
abbrev pub outsiders : Mux → String → List (ℕ × Request) → List (ℕ × Request)
outsiders mux prefix [] = []
outsiders mux prefix ((now, r) ∷ rs) =
    if starts_with r.path prefix
    then outsiders mux prefix rs
    else (if mux.is_clean r.path
        then (now, r) ∷ outsiders mux prefix rs
        else outsiders mux prefix rs)

-- A request outside the prefix of the API, or one to the API without the right credentials.
abbrev pub IsStray : BasicConfiguration → ℕ × Request → Type 0
IsStray c (now, r) =
    (starts_with r.path c.api_path_prefix ≡ false)
    ⊎ ((is_protected c.api_path_prefix r ≡ true)
        × (r.basic_auth ≢ some (c.api_username, c.api_password)))

module _ {R T : Type 0} (program : Program R T) (c : BasicConfiguration)
    (literal : (path : String) (r : Request) (vars : GoMap String)
      → program.mux.path_match (c.api_path_prefix <> path) r ≡ some vars
      → starts_with r.path c.api_path_prefix ≡ true) where
  open program use {services, engine}

  mock_answer-handled :
      (found : Bool × Request × State services engine) (s : Server program)
      → (mock_answer program c literal found s).1.server
        ≡ record s { mock = handled services engine fresh found }
  unfolding after_mock
  mock_answer-handled (false, r, mock) s = refl
  mock_answer-handled (true, r, mock) s =
      go (handler services engine (record r { vars = [] }) fresh mock)
    where
      go :
          (reply : Reply (State services engine))
          → (after_mock program fresh
              (record { server = record s { mock = mock }; aborted = false })
              reply).1.server
            ≡ record s { mock = state_of services engine reply }
      go (answered w' mock') = refl
      go (panicked mock') = refl

  serve_request-outsider :
      (now : ℕ) (r : Request) (rs : List (ℕ × Request)) (s : Server program)
      → starts_with r.path c.api_path_prefix ≡ false
      → program.mux.is_clean r.path ≡ true
      → ((mock : State services engine)
          → (os : List Outcome) × Journal
              (ChosenOnce services engine s.tree)
              (outsiders program.mux c.api_path_prefix rs)
              os
            × (seen services engine
                  (serve_requests program c rs (record s { mock = mock })).mock.world
                ≡ note_all services engine os (seen services engine mock.world)))
      → (os : List Outcome) × Journal
          (ChosenOnce services engine s.tree)
          ((now, r) ∷ outsiders program.mux c.api_path_prefix rs)
          os
        × (seen services engine
              (serve_requests program c rs (serve_request program c now r s).1.server).mock.world
            ≡ note_all services engine os (seen services engine s.mock.world))
  serve_request-outsider now r rs s here clean others =
      let found = matcher services engine c.api_path_prefix now s.tree r s.mock in
      let served =
        ap (λ x. x.1.server) (serve_request-outside program c literal now r s here clean)
        ∙ mock_answer-handled found s in
      let (o, noted, put) =
        seen-matcher services engine c.api_path_prefix now s.tree r s.mock here in
      let (os, journal, more) = others (handled services engine fresh found) in
      (
        o ∷ os,
        (
          Notes-mono _ (ChosenOnce services engine s.tree r) (λ e h. (now, h)) now r o noted,
          journal,
        ),
        ap (λ x. seen services engine (serve_requests program c rs x).mock.world) served
            ∙ more
            ∙ ap (λ x. note_all services engine os x)
                (seen-handled services engine fresh found ∙ put),
      )

  pub serve_requests-Journal :
      (rs : List (ℕ × Request)) (s : Server program)
      → All (IsStray c) rs
      → (os : List Outcome) × Journal
          (ChosenOnce services engine s.tree)
          (outsiders program.mux c.api_path_prefix rs)
          os
        × (seen services engine (serve_requests program c rs s).mock.world
            ≡ note_all services engine os (seen services engine s.mock.world))
  unfolding serve_requests
  serve_requests-Journal [] s stray = ([], tt, refl)
  serve_requests-Journal ((now, r) ∷ rs) s (inl here, stray) =
      elim (Bool-cases (program.mux.is_clean r.path)) [
        | inl clean ↦
            rw (here, clean)
              (serve_request-outsider now r rs s here clean
                (λ mock. serve_requests-Journal rs (record s { mock = mock }) stray))
        | inr unclean ↦
            let same = ap (λ x. x.1.server) (serve_request-unclean program c now r s unclean) in
            let (os, journal, noted) = serve_requests-Journal rs s stray in
            rw (here, unclean)
              (
                os,
                journal,
                ap (λ x. seen services engine (serve_requests program c rs x).mock.world) same
                    ∙ noted,
              )
      ]
  serve_requests-Journal ((now, r) ∷ rs) s (inr (guarded, stranger), stray) =
      let refused =
        ap (λ x. x.server) (serve_request-Refused program c r guarded stranger now s).0 in
      let (os, journal, noted) = serve_requests-Journal rs s stray in
      rw (under program c r guarded stranger) (
        os,
        journal,
        ap (λ x. seen services engine (serve_requests program c rs x).mock.world) refused ∙ noted,
      )
