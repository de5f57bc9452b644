-- ===== src/Kvstore/Handlers.antt =====
-- mockgo/kvstore/requestHandler.go: the handlers of the key-value store's API and their routes.
use mockgo_server.Prelude.{
  String, Option, none, some, List, [], ◌∷◌, GoMap, Result, ok, err, ◌<>◌, ◌>>=◌,
}
use mockgo_server.Http.{read_all, path_var}
use mockgo_server.Http.Writer.{Writer, write_header, http_error}
use mockgo_server.Util.{
  Handler, Entity, raw, other, write_entity, json_content_type_request, json_accept_request,
  path_param_request, Route,
}
use mockgo_server.Kvstore.{Value, null, str, Storage}

-- encoding/json, as far as the program calls it: json.Unmarshal into an `interface{}`, and
-- json.Marshal of a value and of a map.
pub record Json : Type 0 where
  pub unmarshal : String → Result Value
  pub marshal : Value → Result String
  pub marshal_map : GoMap Value → Result String

module _ (json : Json) where
  -- A value as WriteEntity takes it: a JSON string is a Go string.
  unfoldable pub value_entity : Value → Entity
  value_entity (str s) = raw s
  value_entity val = other (json.marshal val)

  unfoldable pub answer_value : Result Value → Writer → Writer
  unfolding value_entity
  answer_value (err e) w = http_error e 500 w
  answer_value (ok null) w = write_header 404 w
  answer_value (ok val) w = write_entity (value_entity val) w

module _ (storage : Storage) (json : Json) where
  open storage use {State, get, get_all, put}

  -- handleGetKVStore
  unfoldable pub handle_get_kv_store : Handler State
  unfolding answer_value
  handle_get_kv_store r w s =
      let (found, s') = get (path_var r "store") (path_var r "key") s in
      (answer_value json found w, s')

  answer_map : Result (Option (GoMap Value)) → Writer → Writer
  answer_map (err e) w = http_error e 500 w
  answer_map (ok none) w = write_header 404 w
  answer_map (ok (some m)) w = write_entity (other (json.marshal_map m)) w

  -- handleGetAllKVStore
  unfoldable pub handle_get_all_kv_store : Handler State
  unfolding answer_map
  handle_get_all_kv_store r w s =
      let (found, s') = get_all (path_var r "store") s in (answer_map found w, s')

  answer_put : String → Result (Unit {0}) → Writer → Writer
  answer_put problem (err e) w = http_error (problem <> e) 500 w
  answer_put problem (ok _) w = write_header 204 w

  -- The body of handlePutKVStore behind json.Unmarshal.
  put_value : Result Value → Handler State
  unfolding answer_put
  put_value (err e) r w s = (http_error ("Can't parse request body: " <> e) 400 w, s)
  put_value (ok val) r w s =
      let (done, s') = put (path_var r "store") (path_var r "key") val s in
      (answer_put "Can't store kvstore value " done w, s')

  put_body : Result String → Handler State
  unfolding put_value
  put_body (err e) r w s = (http_error ("Problem reading request body: " <> e) 500 w, s)
  put_body (ok body) r w s = put_value (json.unmarshal body) r w s

  -- handlePutKVStore
  unfoldable pub handle_put_kv_store : Handler State
  unfolding put_body
  handle_put_kv_store r w s = put_body (read_all r.body).0 r w s

  -- handleRemoveKVStore
  unfoldable pub handle_remove_kv_store : Handler State
  unfolding answer_put
  handle_remove_kv_store r w s =
      let (done, s') = put (path_var r "store") (path_var r "key") null s in
      (answer_put "Can't remove value from kvstore: " done w, s')

-- AddRoutes
unfoldable pub kv_routes : (storage : Storage) → Json → String → List (Route storage.State)
kv_routes storage json path_prefix =
    let with_key = path_prefix <> "/kvstore/{store}/{key}" in
    let both = "store" ∷ "key" ∷ [] in
    record {
      name = "putKVStore";
      path = with_key;
      method = "PUT";
      handler =
          json_content_type_request (path_param_request both (handle_put_kv_store storage json));
    }
    ∷ record {
      name = "getKVStore";
      path = with_key;
      method = "GET";
      handler = json_accept_request (path_param_request both (handle_get_kv_store storage json));
    }
    ∷ record {
      name = "getAllKVStore";
      path = path_prefix <> "/kvstore/{store}";
      method = "GET";
      handler =
          json_accept_request
            (path_param_request ("store" ∷ []) (handle_get_all_kv_store storage json));
    }
    ∷ record {
      name = "removeKVStore";
      path = with_key;
      method = "DELETE";
      handler = path_param_request both (handle_remove_kv_store storage json);
    }
    ∷ []

-- RequestHandler, over the types of the storage and of the logger. NewRequestHandler leaves its credentials empty, and
-- no code reads them.
pub record RequestHandler (S L : Type 0) : Type 0 where
  pub path_prefix : String
  pub logger : L
  pub storage : S
  pub basic_auth_username : String
  pub basic_auth_password : String

-- NewRequestHandler, with what util.CreateLogger returns for its log level
unfoldable pub new_request_handler :
    {S L : Type 0} → String → S → Result L → Result (RequestHandler S L)
new_request_handler path_prefix storage logger = logger >>= λ l. ok (record {
  path_prefix = path_prefix;
  logger = l;
  storage = storage;
  basic_auth_username = "";
  basic_auth_password = "";
})
