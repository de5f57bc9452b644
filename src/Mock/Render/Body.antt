-- ===== src/Mock/Render/Body.antt =====
-- The request body of mockgo/mock/requestHandler.go is read once: by matchBody, or else by
-- createResponseTemplateData.
use mockgo_server.Prelude.{arith, String, ◌≡◌, refl, some, GoMap, ok}
use mockgo_server.Http.{Request, unread, read_all}
use mockgo_server.Mock.Model.{MatchRequest}
use mockgo_server.Mock.Select.{Services, match_body}
use mockgo_server.Mock.Render.{TemplateData, Engine, create_template_data}

module _ {R : Type 0} (services : Services R) (wanted : MatchRequest R) (re : R)
    (has : wanted.body_regexp ≡ some re) (r : Request) (text : String)
    (full : r.body ≡ unread text) where
  match_body_lem :
      match_body services wanted r ≡ (services.is_match re text, record r { body = unread "" })
  unfolding match_body read_all
  match_body_lem = rw has (ground (arith, full))

  -- The first endpoint whose body expression is tried sees the body of the request. An endpoint that
  -- is tried after it sees an empty body.
  match_body-match_body :
      (other : MatchRequest R) (re' : R)
      → other.body_regexp ≡ some re'
      → ((match_body services wanted r).0 ≡ services.is_match re text)
        × ((match_body services other (match_body services wanted r).1).0
            ≡ services.is_match re' "")
  unfolding match_body read_all
  match_body-match_body other re' has' = rw match_body_lem (refl, rw has' refl)

  -- The templates of an endpoint whose body expression was tried get the empty text for the body of
  -- the request.
  create_template_data-match_body :
      {T K : Type 0} (engine : Engine T K) (path_params query_params : GoMap String)
      → (d : TemplateData) × (create_template_data engine
            (match_body services wanted r).1
            path_params
            query_params
          ≡ ok d)
        × (d.request_body ≡ "")
  unfolding create_template_data read_all
  create_template_data-match_body engine path_params query_params =
      rw match_body_lem (_, refl, refl)
