-- ===== src/Util/Wrapped.antt =====
-- The middlewares of mockgo/util/http.go that test the headers and the path: they run the wrapped handler or leave the
-- state as it is.
use mockgo_server.Prelude.{String, ◌==◌, Bool-cases, inl, inr, List, [], ◌∷◌}
use mockgo_server.Http.{Request, header_get, path_var}
use mockgo_server.Http.Writer.{Writer}
use mockgo_server.Util.{Handler, json_content_type_request, path_param_request}

module _ {S : Type 0} (P : S → Type 0) (impl : Handler S) (r : Request) (w : Writer) (s : S)
    (kept : P s) (handled : P (impl r w s).1) where
  pub json_content_type_request_either : P (json_content_type_request impl r w s).1
  unfolding json_content_type_request
  json_content_type_request_either =
      elim (Bool-cases (header_get r.header "Content-Type" == "application/json")) [
        | inl typed ↦ rw typed handled
        | inr other' ↦ rw other' kept
      ]

  pub path_param_request_either :
      (params : List String) → P (path_param_request params impl r w s).1
  unfolding path_param_request
  path_param_request_either [] = handled
  path_param_request_either (expected ∷ more) = elim (Bool-cases (path_var r expected == "")) [
    | inl missing ↦ rw missing kept
    | inr set ↦ rw set (path_param_request_either more)
  ]
