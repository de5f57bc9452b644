-- ===== src/Matches/Handlers.antt =====
-- mockgo/matches/requestHandler.go: the handlers of the request storage's API and their routes.
use mockgo_server.Prelude.{ℕ, String, List, [], ◌∷◌, Result, ok, err, ◌<>◌, ◌>>=◌}
use mockgo_server.Http.{path_var}
use mockgo_server.Http.Writer.{Writer, write_header, http_error}
use mockgo_server.Util.{
  Handler, other, write_entity, json_accept_request, path_param_request, Route,
}
use mockgo_server.Matches.{Matchstore}

-- json.Marshal of what the handlers hand to WriteEntity.
pub record MatchesJson (M N : Type 0) : Type 0 where
  pub marshal_matches : List M → Result String
  pub marshal_mismatches : List N → Result String
  pub marshal_count : ℕ → Result String

-- The two branches behind a call that returns a value, and behind one that returns an error only.
unfoldable pub answer {ℓ} : {A : Type ℓ} → (A → Result String) → Result A → Writer → Writer
answer marshal (err e) w = http_error e 500 w
answer marshal (ok a) w = write_entity (other (marshal a)) w

unfoldable pub answer_done : Result (Unit {0}) → Writer → Writer
answer_done (err e) w = http_error e 500 w
answer_done (ok _) w = write_header 200 w

module _ {M N : Type 0} (store : Matchstore M N) (json : MatchesJson M N) where
  -- handleHealth
  unfoldable pub handle_health : Handler store.State
  handle_health r w s = (write_header 200 w, s)

  -- handleGetMatches
  unfoldable pub handle_get_matches : Handler store.State
  unfolding answer
  handle_get_matches r w s =
      let (found, s') = store.get_matches (path_var r "endpointId") s in
      (answer json.marshal_matches found w, s')

  -- handleGetMatchesCount
  unfoldable pub handle_get_matches_count : Handler store.State
  unfolding answer
  handle_get_matches_count r w s =
      let (found, s') = store.get_matches_count (path_var r "endpointId") s in
      (answer json.marshal_count found w, s')

  -- handleGetMismatches
  unfoldable pub handle_get_mismatches : Handler store.State
  unfolding answer
  handle_get_mismatches r w s =
      let (found, s') = store.get_mismatches s in (answer json.marshal_mismatches found w, s')

  -- handleGetMismatchesCount
  unfoldable pub handle_get_mismatches_count : Handler store.State
  unfolding answer
  handle_get_mismatches_count r w s =
      let (found, s') = store.get_mismatches_count s in (answer json.marshal_count found w, s')

  -- handleDeleteMatches
  unfoldable pub handle_delete_matches : Handler store.State
  unfolding answer_done
  handle_delete_matches r w s =
      let (done, s') = store.delete_matches (path_var r "endpointId") s in (answer_done done w, s')

  -- handleDeleteMismatches
  unfoldable pub handle_delete_mismatches : Handler store.State
  unfolding answer_done
  handle_delete_mismatches r w s =
      let (done, s') = store.delete_mismatches s in (answer_done done w, s')

  -- AddRoutes
  unfoldable pub match_routes : String → List (Route store.State)
  match_routes path_prefix =
      let id = "endpointId" ∷ [] in
      record {
        name = "getMatches";
        path = path_prefix <> "/matches/{endpointId}";
        method = "GET";
        handler = json_accept_request (path_param_request id handle_get_matches);
      }
      ∷ record {
        name = "getMatchesCount";
        path = path_prefix <> "/matchesCount/{endpointId}";
        method = "GET";
        handler = json_accept_request (path_param_request id handle_get_matches_count);
      }
      ∷ record {
        name = "getMismatches";
        path = path_prefix <> "/mismatches";
        method = "GET";
        handler = json_accept_request handle_get_mismatches;
      }
      ∷ record {
        name = "getMismatchesCount";
        path = path_prefix <> "/mismatchesCount";
        method = "GET";
        handler = json_accept_request handle_get_mismatches_count;
      }
      ∷ record {
        name = "deleteMatches";
        path = path_prefix <> "/matches/{endpointId}";
        method = "DELETE";
        handler = path_param_request id handle_delete_matches;
      }
      ∷ record {
        name = "deleteMismatches";
        path = path_prefix <> "/mismatches";
        method = "DELETE";
        handler = handle_delete_mismatches;
      }
      ∷ []

-- RequestHandler, over the types of the match store and of the logger. NewRequestHandler leaves its credentials
-- empty, and no code reads them.
pub record RequestHandler (S L : Type 0) : Type 0 where
  pub path_prefix : String
  pub match_store : S
  pub logger : L
  pub basic_auth_username : String
  pub basic_auth_password : String

-- NewRequestHandler, with what util.CreateLogger returns for its log level
unfoldable pub new_request_handler :
    {S L : Type 0} → String → S → Result L → Result (RequestHandler S L)
new_request_handler path_prefix match_store logger = logger >>= λ l. ok (record {
  path_prefix = path_prefix;
  match_store = match_store;
  logger = l;
  basic_auth_username = "";
  basic_auth_password = "";
})
