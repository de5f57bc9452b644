-- ===== src/Mock/Served.antt =====
-- From the mock files to the choice for a request: LoadFiles and matchRequestToEndpoint of
-- mockgo/mock/requestHandler.go together.
use mathlib.Core.Option.{some-injective}
use mathlib.Core.Path.{subst}
use mockgo_server.Prelude.{
  ℕ, String, ◌<>◌, ◌≡◌, ◌∙◌, sym, ap, ◌⊎◌, inl, inr, List, [], ◌∷◌, All, All-mono, All-append,
  All-middle, some, Option-cases, none≢some, lookup, or_zero, split,
}
use mockgo_server.Http.{Request, first_value}
use mockgo_server.Mock.Model.{Endpoint}
use mockgo_server.Mock.Tree.{Node, node, endpoints_of, find_child}
use mockgo_server.Mock.Register.{endpoint_key}
use mockgo_server.Mock.Register.Content.{endpoints_at, endpoints_at-nil, path_keys}
use mockgo_server.Mock.Register.Filed.{IsFiled}
use mockgo_server.Mock.Load.Loaded.{HasTemplates, IsLoaded}
use mockgo_server.Mock.Search.{path_segments}
use mockgo_server.Mock.Search.Fitting.{until_empty, Fits, node_at}
use mockgo_server.Mock.Select.{Services, World, candidates, match_request_to_endpoint}
use mockgo_server.Mock.Select.First.{Selected, match_request_to_endpoint-First}

module _ {R T : Type 0} where
  -- The endpoint's key is made of the request's method and host, without its port, or it is the method.
  abbrev pub Answers : Request → Endpoint R T → Type 0
  Answers r e =
      (endpoint_key e ≡ "+" <> r.method <> "-" <> first_value (split r.host b':'))
      ⊎ (endpoint_key e ≡ r.method)

  -- The node at the end of a path of keys holds under each key what the tree holds there.
  endpoints_at-node_at :
      (ks : List String) (key : String) (n sn : Node (Endpoint R T))
      → node_at ks n ≡ some sn
      → or_zero [] (lookup key (endpoints_of sn)) ≡ endpoints_at ks key n
  unfolding node_at endpoints_at
  endpoints_at-node_at [] key n sn h =
      endpoints_at-nil key sn ∙ ap (endpoints_at [] key) (sym (some-injective n sn h))
  endpoints_at-node_at (k ∷ ks) key (node cs eps name) sn h =
      elim (Option-cases (find_child k cs)) [
        | inl missing ↦ absurd (none≢some sn (rw (missing, node_at) at h))
        | inr (m, found) ↦
            rw (found, endpoints_at) (endpoints_at-node_at ks key m sn (rw (found, node_at) at h))
      ]

  candidates-Filed :
      (services : Services R) (P : Endpoint R T → Type 0) (ks : List String)
      (tree sn : Node (Endpoint R T)) (r : Request)
      → IsFiled P tree
      → node_at ks tree ≡ some sn
      → All (λ e. P e × (path_keys e ≡ ks) × Answers r e) (candidates services sn r)
  unfolding candidates
  candidates-Filed services P ks tree sn r filed at =
      let host_key = "+" <> r.method <> "-" <> first_value (split r.host b':') in
      All-append _ _ _
        (subst (All _) (sym (endpoints_at-node_at ks host_key tree sn at))
          (All-mono _ (λ e f. (f.0, f.1, inl f.2)) (filed ks host_key)))
        (subst (All _) (sym (endpoints_at-node_at ks r.method tree sn at))
          (All-mono _ (λ e f. (f.0, f.1, inr f.2)) (filed ks r.method)))

  -- Where every endpoint of the tree has its templates and stands under its own path and key, as LoadFiles
  -- leaves it, the endpoint that matchRequestToEndpoint returns is one for the request: its templates are
  -- parsed, its own path fits that of the request up to its first empty segment, its own key is made of the
  -- request's method and host or is the method, and it is the first one for the request that accepts the query
  -- parameters, the headers and the body.
  pub match_request_to_endpoint-IsLoaded :
      (services : Services R) (now : ℕ) (tree : Node (Endpoint R T)) (r : Request)
      (w : World services) (e : Endpoint R T) (pointer : ℕ)
      → IsLoaded tree
      → (match_request_to_endpoint services now tree r w).0.0 ≡ some (e, pointer)
      → HasTemplates e
        × Fits (path_keys e) (until_empty (path_segments r.path))
        × Answers r e
        × Selected services tree r e
  match_request_to_endpoint-IsLoaded services now tree r w e pointer loaded h =
      let first = match_request_to_endpoint-First services now tree r w e pointer h in
      let (ks, sn, at, fits, (before, after, found, refused, accepted)) = first in
      let (templates, own, key) =
        All-middle _ before e after
          (subst (All _) found (candidates-Filed services HasTemplates ks tree sn r loaded at)) in
      (
        templates,
        subst (λ k. Fits k (until_empty (path_segments r.path))) (sym own) fits,
        key,
        first,
      )
