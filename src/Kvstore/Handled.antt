-- ===== src/Kvstore/Handled.antt =====
-- The handlers of mockgo/kvstore/requestHandler.go with the middlewares that AddRoutes puts around them.
use mockgo_server.Util.Wrapped.{path_param_request_either, json_content_type_request_either}
use mockgo_server.Prelude.{
  Result-cases, String, ◌==◌, ◌≡◌, refl, arith, ok, false, [], ◌∷◌, lookup, ◌⊎◌, inl, inr, GoMap,
}
use mockgo_server.Http.{Request, unread, read_all, header_get, path_var}
use mockgo_server.Http.Writer.{Writer, write_header}
use mockgo_server.Util.{Handler, json_content_type_request, json_accept_request, path_param_request}
use mockgo_server.Kvstore.{Value, null, Storage}
use mockgo_server.Kvstore.Handlers.{
  Json, answer_value, handle_get_kv_store, handle_get_all_kv_store, handle_put_kv_store,
  handle_remove_kv_store,
}
use mockgo_server.Kvstore.Storing.{StoresValues}

module _ (storage : Storage) (json : Json) where
  abbrev pub put_handler : Handler storage.State
  put_handler =
      json_content_type_request
        (path_param_request ("store" ∷ "key" ∷ []) (handle_put_kv_store storage json))

  abbrev pub get_handler : Handler storage.State
  get_handler =
      json_accept_request
        (path_param_request ("store" ∷ "key" ∷ []) (handle_get_kv_store storage json))

  abbrev pub get_all_handler : Handler storage.State
  get_all_handler =
      json_accept_request (path_param_request ("store" ∷ []) (handle_get_all_kv_store storage json))

  abbrev pub remove_handler : Handler storage.State
  remove_handler = path_param_request ("store" ∷ "key" ∷ []) (handle_remove_kv_store storage json)

  abbrev pub address : String → String → GoMap String
  address store key = ("store", store) ∷ ("key", key) ∷ []

  module _ (laws : StoresValues storage) (store key : String) (named_store : (store == "") ≡ false)
      (named_key : (key == "") ≡ false) (r : Request) (w : Writer) (s : storage.State) where
    pub put_handler_lem :
        (body : String) (val : Value)
        → header_get r.header "Content-Type" ≡ "application/json"
        → r.body ≡ unread body
        → json.unmarshal body ≡ ok val
        → put_handler (record r { vars = address store key }) w s
          ≡ (write_header 204 w, (storage.put store key val s).1)
    unfolding json_content_type_request path_param_request handle_put_kv_store read_all lookup
    put_handler_lem body val typed unread' parsed =
        rw (typed, named_store, named_key, unread', parsed, laws.put_succeeds store key val s) refl

    pub remove_handler_lem :
        remove_handler (record r { vars = address store key }) w s
        ≡ (write_header 204 w, (storage.put store key null s).1)
    unfolding path_param_request handle_remove_kv_store lookup
    remove_handler_lem = rw (named_store, named_key, laws.put_succeeds store key null s) refl

    pub get_handler_lem :
        header_get r.header "Accept" ≡ "application/json"
        → get_handler (record r { vars = address store key }) w s
          ≡ (answer_value json (storage.get store key s).0 w, (storage.get store key s).1)
    unfolding json_accept_request path_param_request handle_get_kv_store lookup
    get_handler_lem accepted = rw (accepted, named_store, named_key) refl

  module _ (r : Request) (w : Writer) (s : storage.State) where
    -- A handler that writes puts a value under the store and the key of the request, or changes nothing.
    abbrev pub Puts : storage.State → Type 0
    Puts s' =
        (s' ≡ s)
        ⊎ ((val : Value) × (s' ≡ (storage.put (path_var r "store") (path_var r "key") val s).1))

    handle_put-Puts : Puts (handle_put_kv_store storage json r w s).1
    unfolding handle_put_kv_store
    handle_put-Puts = elim (Result-cases (read_all r.body).0) [
      | inr (e, broken) ↦ rw broken (inl refl)
      | inl (text, read) ↦ elim (Result-cases (json.unmarshal text)) [
        | inr (e, bad) ↦ rw (read, bad) (inl refl)
        | inl (val, parsed) ↦ rw (read, parsed) (inr (val, refl))
      ]
    ]

    pub put_handler-Puts : Puts (put_handler r w s).1
    put_handler-Puts =
        json_content_type_request_either Puts _ r w s (inl refl)
          (path_param_request_either Puts _ r w s (inl refl) handle_put-Puts ("store" ∷ "key" ∷ []))

    pub remove_handler-Puts : Puts (remove_handler r w s).1
    unfolding handle_remove_kv_store
    remove_handler-Puts =
        path_param_request_either Puts (handle_remove_kv_store storage json) r w s (inl refl)
          (inr (null, refl)) ("store" ∷ "key" ∷ [])

    pub get_handler-keeps : StoresValues storage → (get_handler r w s).1 ≡ s
    unfolding json_accept_request path_param_request handle_get_kv_store
    get_handler-keeps laws =
        ground (arith, laws.get_keeps (path_var r "store") (path_var r "key") s)

    pub get_all_handler-keeps : StoresValues storage → (get_all_handler r w s).1 ≡ s
    unfolding json_accept_request path_param_request handle_get_all_kv_store
    get_all_handler-keeps laws = ground (arith, laws.get_all_keeps (path_var r "store") s)
