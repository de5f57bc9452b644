-- ===== src/Mock/Select/First.antt =====
-- Which endpoint mockgo/mock/requestHandler.go chooses for a request.
use mockgo_server.Mock.Search.Sound.{search_path-Fits}
use mockgo_server.Mock.Search.{
  stopped, missed, reached, Walk, missed, reached, search_path, Walk, path_segments,
}
use mockgo_server.Mock.Search.Fitting.{until_empty, Fits, node_at}
use mathlib.Core.Path.{subst}
use mockgo_server.Prelude.{
  ◌∙◌, false≢true, GoMap, All, all, eq_iff, ◌==◌, Bool, ok, err, Result, Option-cases, ◌<>◌,
  none≢some, List-cases, ℕ, String, ◌≡◌, refl, sym, ap, ◌⊎◌, inl, inr, true, false, List, [], ◌∷◌,
  ◌++◌, none, some, Bool-cases,
}
use mockgo_server.Http.{Request, Body, read_all, query_get, header_get}
use mockgo_server.Mock.Model.{Endpoint}
use mockgo_server.Mock.Select.{
  Option, not_matched, choose, match_request_to_endpoint, endpoints_of, candidates, Node,
  match_search_node, Services, World, match_body, match_read, match_query_params,
  match_header_values, match_endpoints_attributes,
}

-- Every wanted entry has the value that the request has for its key.
abbrev pub FitsAll : (String → String) → GoMap String → Type 0
FitsAll value_of wanted = All (λ e. value_of e.0 ≡ e.1) wanted

-- The request has another value for the key of some wanted entry.
abbrev pub FailsOne : (String → String) → GoMap String → Type 0
FailsOne value_of wanted =
    (before : GoMap String) × (key : String) × (val : String) × (after : GoMap String) × (wanted
      ≡ before ++ (key, val) ∷ after)
    × ¬ (value_of key ≡ val)

all-FitsAll :
    (value_of : String → String) (wanted : GoMap String)
    → all (λ e. value_of e.0 == e.1) wanted ≡ true
    → FitsAll value_of wanted
all-FitsAll value_of [] h = tt
all-FitsAll value_of ((key, val) ∷ wanted) h = elim (Bool-cases (value_of key == val)) [
  | inl same ↦ ((eq_iff (value_of key) val).0 same, all-FitsAll value_of wanted (rw same at h))
  | inr other ↦ absurd (false≢true (rw other at h))
]

all-FailsOne :
    (value_of : String → String) (wanted : GoMap String)
    → all (λ e. value_of e.0 == e.1) wanted ≡ false
    → FailsOne value_of wanted
all-FailsOne value_of [] h = absurd (false≢true (sym h))
all-FailsOne value_of ((key, val) ∷ wanted) h = elim (Bool-cases (value_of key == val)) [
  | inl same ↦
      let (before, k, v, after, split, differs) = all-FailsOne value_of wanted (rw same at h) in
      ((key, val) ∷ before, k, v, after, ap (λ l. (key, val) ∷ l) split, differs)
  | inr other ↦ (
    [],
    key,
    val,
    wanted,
    refl,
    λ same. false≢true (sym other ∙ (eq_iff (value_of key) val).1 same),
  )
]

-- What is left of a body: it is read only where the query parameters and the headers fit and there is a body expression.
abbrev pub left_of : {R : Type 0} → Bool → Bool → Option R → Body → Body
left_of false headers wanted b = b
left_of true false wanted b = b
left_of true true none b = b
left_of true true (some re) b = (read_all b).1

module _ {R : Type 0} (services : Services R) where
  match_read-true :
      (re : R) (found : Result String)
      → match_read services re found ≡ true
      → (text : String) × (found ≡ ok text) × (services.is_match re text ≡ true)
  unfolding match_read
  match_read-true re (ok text) h = (text, refl, h)
  match_read-true re (err e) h = absurd (false≢true h)

  match_read-false :
      (re : R) (found : Result String)
      → match_read services re found ≡ false
      → ((problem : String) × (found ≡ err problem))
        ⊎ ((text : String) × (found ≡ ok text) × (services.is_match re text ≡ false))
  unfolding match_read
  match_read-false re (ok text) h = inr (text, refl, h)
  match_read-false re (err e) h = inl (e, refl)

module _ {R T : Type 0} (services : Services R) (r : Request) where
  -- What an endpoint that is tried leaves of the body.
  abbrev pub left_by : Endpoint R T → Body → Body
  left_by e b =
      left_of (match_query_params e.request r) (match_header_values e.request r)
        e.request.body_regexp b

  -- The same of endpoints that are tried in turn.
  abbrev pub left_by_all : List (Endpoint R T) → Body → Body
  left_by_all [] b = b
  left_by_all (e ∷ es) b = left_by_all es (left_by e b)

  -- The body can be read, and the body expression of the endpoint matches its text; or there is none.
  abbrev pub FitsBody : Endpoint R T → Body → Type 0
  FitsBody e b =
      (e.request.body_regexp ≡ none)
      ⊎ ((re : R) × (text : String) × (e.request.body_regexp ≡ some re)
          × ((read_all b).0 ≡ ok text)
          × (services.is_match re text ≡ true))

  -- The endpoint has a body expression, and the body cannot be read, or the expression does not match its text.
  abbrev pub FailsBody : Endpoint R T → Body → Type 0
  FailsBody e b =
      (re : R) × (e.request.body_regexp ≡ some re)
      × (((problem : String) × ((read_all b).0 ≡ err problem))
          ⊎ ((text : String) × ((read_all b).0 ≡ ok text) × (services.is_match re text ≡ false)))

  -- The request, with the body as it is when the endpoint is tried, fits the wanted attributes.
  abbrev pub Accepts : Body → Endpoint R T → Type 0
  Accepts b e =
      FitsAll (query_get r.query) e.request.query
      × FitsAll (header_get r.header) e.request.headers
      × FitsBody e b

  abbrev pub Refuses : Body → Endpoint R T → Type 0
  Refuses b e =
      FailsOne (query_get r.query) e.request.query
      ⊎ FailsOne (header_get r.header) e.request.headers
      ⊎ FailsBody e b

  -- Endpoints refuse the request in turn, each with what those before it left of the body.
  abbrev pub RefuseInTurn : Body → List (Endpoint R T) → Type 0
  RefuseInTurn b [] = Unit
  RefuseInTurn b (e ∷ es) = Refuses b e × RefuseInTurn (left_by e b) es

  -- The choice is the first endpoint of the list that accepts the request; no choice means that all
  -- refuse it.
  abbrev pub First : Body → List (Endpoint R T) → Option (Endpoint R T × ℕ) → Type 0
  First b es (some (e, pointer)) =
      (before : List (Endpoint R T)) × (after : List (Endpoint R T)) × (es ≡ before ++ e ∷ after)
      × RefuseInTurn b before
      × Accepts (left_by_all before b) e
  First b es none = RefuseInTurn b es

  First-cons :
      (b : Body) (x : Endpoint R T) (es : List (Endpoint R T)) (c : Option (Endpoint R T × ℕ))
      → Refuses b x
      → First (left_by x b) es c
      → First b (x ∷ es) c
  First-cons b x es (some (e, pointer)) refused (before, after, split, all, accepted) =
      (x ∷ before, after, ap (λ l. x ∷ l) split, (refused, all), accepted)
  First-cons b x es none refused all = (refused, all)

  match_body-FitsBody :
      (e : Endpoint R T) (b : Body)
      → (match_body services e.request (record r { body = b })).0 ≡ true
      → FitsBody e b
  unfolding match_body
  match_body-FitsBody e b h = elim (Option-cases e.request.body_regexp) [
    | inl missing ↦ inl missing
    | inr (re, has) ↦
        let (text, read, fits) =
          match_read-true services re (read_all b).0 (rw (has, match_body) at h) in
        inr (re, text, has, read, fits)
  ]

  match_body-FailsBody :
      (e : Endpoint R T) (b : Body)
      → (match_body services e.request (record r { body = b })).0 ≡ false
      → FailsBody e b
  unfolding match_body
  match_body-FailsBody e b h = elim (Option-cases e.request.body_regexp) [
    | inl missing ↦ absurd (false≢true (sym (rw (missing, match_body) at h)))
    | inr (re, has) ↦
        (re, has, match_read-false services re (read_all b).0 (rw (has, match_body) at h))
  ]

  match_body-left :
      (e : Endpoint R T) (b : Body)
      → (match_body services e.request (record r { body = b })).1
        ≡ record r { body = left_of true true e.request.body_regexp b }
  unfolding match_body
  match_body-left e b = elim (Option-cases e.request.body_regexp) [
    | inl missing ↦ rw (missing, match_body) refl
    | inr (re, has) ↦ rw (has, match_body) refl
  ]

  First-left :
      (b b' : Body) (es : List (Endpoint R T)) (c : Option (Endpoint R T × ℕ))
      → b' ≡ b
      → First b es c
      → First b' es c
  First-left b b' es c same h = subst (λ x. First x es c) (sym same) h

  match_endpoints_attributes-First :
      (now : ℕ) (es : List (Endpoint R T)) (message : String) (b : Body) (w : World services)
      → First b es (match_endpoints_attributes services now message es (record r { body = b }) w).0
  unfolding match_endpoints_attributes match_query_params match_header_values
  match_endpoints_attributes-First now [] message b w = tt
  match_endpoints_attributes-First now (e ∷ es) message b w =
      let r0 : Request = record r { body = b } in
      elim (Bool-cases (match_query_params e.request r)) [
        | inr a ↦
            rw (a, match_endpoints_attributes)
              (First-cons b e es _ (inl (all-FailsOne (query_get r.query) e.request.query a)) (
                First-left b (left_by e b) es _
                  (ap (λ q. left_of q (match_header_values e.request r) e.request.body_regexp b) a)
                  (match_endpoints_attributes-First now es _ b w)))
        | inl a ↦ elim (Bool-cases (match_header_values e.request r)) [
          | inr c ↦
              rw (a, c, match_endpoints_attributes)
                (First-cons b e es _
                  (inr (inl (all-FailsOne (header_get r.header) e.request.headers c)))
                  (First-left b (left_by e b) es _
                    (ap (λ q. left_of q (match_header_values e.request r) e.request.body_regexp b) a
                      ∙ ap (λ q. left_of true q e.request.body_regexp b) c)
                    (match_endpoints_attributes-First now es _ b w)))
          | inl c ↦ elim (Bool-cases (match_body services e.request r0).0) [
            | inr d ↦
                rw (a, c, d, match_endpoints_attributes)
                  (First-cons b e es _ (inr (inr (match_body-FailsBody e b d))) (
                    First-left (left_of true true e.request.body_regexp b) (left_by e b) es _
                      (ap (λ q. left_of q (match_header_values e.request r) e.request.body_regexp b)
                          a
                        ∙ ap (λ q. left_of true q e.request.body_regexp b) c)
                      (subst
                        (λ q.
                          First (left_of true true e.request.body_regexp b) es
                            (match_endpoints_attributes services now
                              (message <> not_matched e.id "body" ("'" <> e.request.body <> "'")) es
                              q w).0)
                        (sym (match_body-left e b))
                        (match_endpoints_attributes-First now es _
                          (left_of true true e.request.body_regexp b) w))))
            | inl d ↦
                rw (a, c, d, match_endpoints_attributes)
                  (
                    [],
                    es,
                    refl,
                    tt,
                    (
                      all-FitsAll (query_get r.query) e.request.query a,
                      all-FitsAll (header_get r.header) e.request.headers c,
                      match_body-FitsBody e b d,
                    ),
                  )
          ]
        ]
      ]

  match_search_node-First :
      (now : ℕ) (sn : Node (Endpoint R T)) (w : World services) (es : List (Endpoint R T))
      (e : Endpoint R T) (pointer : ℕ)
      → candidates services sn r ≡ es
      → (match_search_node services now sn r w).0 ≡ some (e, pointer)
      → First r.body es (match_search_node services now sn r w).0
  unfolding match_search_node
  match_search_node-First now sn w es e pointer same h = elim (List-cases (endpoints_of sn)) [
    | inl a ↦ absurd (none≢some (e, pointer) (rw (a, match_search_node) at h))
    | inr (p, ps, a) ↦ elim (List-cases (candidates services sn r)) [
      | inl b ↦ absurd (none≢some (e, pointer) (rw (a, b, match_search_node) at h))
      | inr (x, xs, b) ↦
          rw (a, b, match_search_node)
            (subst
              (λ l.
                First r.body l
                  (match_endpoints_attributes services now "" (candidates services sn r) r w).0)
              same (match_endpoints_attributes-First now (candidates services sn r) "" r.body w))
    ]
  ]

-- The tree has a node at a path of keys that fits the path of the request, and the endpoint is the first one of those
-- that the node holds for the request that accepts it.
abbrev pub Selected :
    {R T : Type 0} → Services R → Node (Endpoint R T) → Request → Endpoint R T → Type 0
Selected {R} {T} services tree r e =
    (ks : List String) × (sn : Node (Endpoint R T)) × (node_at ks tree ≡ some sn)
    × Fits ks (until_empty (path_segments r.path))
    × ((before : List (Endpoint R T)) × (after : List (Endpoint R T)) × (candidates services sn r
          ≡ before ++ e ∷ after)
        × RefuseInTurn services r r.body before
        × Accepts services r (left_by_all services r before r.body) e)

-- Where matchRequestToEndpoint returns an endpoint, the tree has a node at a path of keys that fits the path of the
-- request up to its first empty segment, and the endpoint is the first one, of those that the node holds for the
-- request's method and host and then of those for its method alone, that accepts the request: each of its query
-- parameters and headers has the wanted value, and the body fits; for each before it a wanted query parameter or header
-- has another value, or the body does not fit. An endpoint with a body expression accepts the body where the expression
-- matches its text: all that the client sent, if it is the first of them with an expression whose query parameters and
-- headers fit, and what that one left of it else.
pub match_request_to_endpoint-First :
    {R T : Type 0} (services : Services R) (now : ℕ) (tree : Node (Endpoint R T)) (r : Request)
    (w : World services) (e : Endpoint R T) (pointer : ℕ)
    → (match_request_to_endpoint services now tree r w).0.0 ≡ some (e, pointer)
    → Selected services tree r e
unfolding match_request_to_endpoint choose
match_request_to_endpoint-First {R = R} {T = T} services now tree r w e pointer h =
    go (search_path tree r.path) refl h
  where
    go :
        (k : Walk (Endpoint R T))
        → search_path tree r.path ≡ k
        → (choose services now k r w).0.0 ≡ some (e, pointer)
        → Selected services tree r e
    go (reached sn params) walked h =
        let (ks, at, fits) = search_path-Fits tree sn r.path params walked in
        (
          ks,
          sn,
          at,
          fits,
          subst (First services r r.body (candidates services sn r)) h
              (match_search_node-First services r now sn w _ e pointer refl h),
        )
    go (missed sn pos params) walked h = absurd (none≢some (e, pointer) h)
    go stopped walked h = absurd (none≢some (e, pointer) h)
