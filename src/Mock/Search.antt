-- ===== src/Mock/Search.antt =====
-- matchRequestToEndpoint of mockgo/mock/requestHandler.go: the walk of a request's path through the
-- tree. Its loop runs on fuel: the number of segments and two more rounds.
pub mod Steps
pub mod Total
pub mod Exact
pub mod Fitting
pub mod Leads
pub mod Sound
pub mod Registered
use mockgo_server.Prelude.{
  ℕ, zero, suc, String, ◌==◌, Bool, true, false, List, [], ◌∷◌, Option, none, some, GoMap, insert,
  length, drop, get_or, split, if◌then◌else◌,
}
use mockgo_server.Mock.Tree.{Node, Children, search_nodes, path_param_name, has_child, find_child}

-- getPathSegment
abbrev pub get_path_segment : List String → ℕ → String
get_path_segment segments pos = get_or segments pos ""

-- The segments of a request's path.
abbrev pub path_segments : String → List String
path_segments path = drop 1 (split path b'/')

-- What the walk ends with: the node that goes to matchSearchNode, or the node and the position that
-- go to addMismatch, with the path parameters; `stopped` stands for a loop that is still running.
pub data Walk (E : Type 0) : Type 0 where
  reached : Node E → GoMap String → Walk E
  missed : Node E → ℕ → GoMap String → Walk E
  stopped : Walk E

-- A round of the loop: it ends, or it goes on with `pos`, `pathSegment`, `allMatch`, `sn` and the path
-- parameters.
pub data Round (E : Type 0) : Type 0 where
  done : Walk E → Round E
  again : ℕ → String → Bool → Node E → GoMap String → Round E

module _ {E : Type 0} where
  -- The inner loop behind `**`: the first segment from `i` on that has a child, and its position;
  -- without one the empty segment, and the position as it was. `rest` are the segments behind `i`.
  unfoldable pub skip : Children E → List String → ℕ → String → ℕ → String × ℕ
  skip cs [] i segment pos = elim (segment == "") [
    | true ↦ (segment, pos)
    | false ↦ elim (find_child segment cs) [ some n ↦ (segment, i) | none ↦ ("", pos) ]
  ]
  skip cs (next ∷ rest) i segment pos = elim (segment == "") [
    | true ↦ (segment, pos)
    | false ↦ elim (find_child segment cs) [
      | some n ↦ (segment, i)
      | none ↦ skip cs rest (suc i) next pos
    ]
  ]

  unfoldable pub resume : Bool → List String → ℕ → String → Children E → String × ℕ
  unfolding skip
  resume true segments pos segment cs = skip cs (drop pos segments) pos segment pos
  resume false segments pos segment cs = (segment, pos)

  -- `requestPathParams[sn.pathParamName] = pathSegment`, where the node has a name
  unfoldable pub capture : Node E → String → GoMap String → GoMap String
  capture n segment params =
      if path_param_name n == "" then params else insert (path_param_name n) segment params

  -- The choice of a child, of those for the segment itself, for `*` and for `**`, in this order.
  unfoldable pub descend_to :
      List String
      → String
      → ℕ
      → Node E
      → GoMap String
      → Option (Node E)
      → Option (Node E)
      → Option (Node E)
      → Round E
  unfolding capture
  descend_to segments segment pos sn params (some n) star stars =
      again (suc pos) (get_path_segment segments pos) false n params
  descend_to segments segment pos sn params none (some n) stars =
      again (suc pos) (get_path_segment segments pos) false n (capture n segment params)
  descend_to segments segment pos sn params none none (some n) =
      again (suc pos) (get_path_segment segments pos) true n params
  descend_to segments segment pos sn params none none none = done (missed sn pos params)

  unfoldable pub descend : List String → String × ℕ → Node E → GoMap String → Round E
  unfolding descend_to
  descend segments (segment, pos) sn params =
      let cs = search_nodes sn in
      descend_to segments segment pos sn params (find_child segment cs) (find_child "*" cs)
        (find_child "**" cs)

  unfoldable pub round : List String → ℕ → String → Bool → Node E → GoMap String → Round E
  unfolding resume descend
  round segments pos segment all_match sn params =
      if segment == ""
      then done (reached sn params)
      else if has_child (search_nodes sn)
      then descend segments (resume all_match segments pos segment (search_nodes sn)) sn params
      else if all_match
      then done (reached sn params)
      else done (missed sn pos params)

  -- The loop.
  unfoldable pub search : ℕ → List String → ℕ → String → Bool → Node E → GoMap String → Walk E
  search zero segments pos segment all_match sn params = stopped
  search (suc fuel) segments pos segment all_match sn params =
      elim (round segments pos segment all_match sn params) [
        | done w ↦ w
        | again pos' segment' all_match' sn' params' ↦
            search fuel segments pos' segment' all_match' sn' params'
      ]

  -- The walk of matchRequestToEndpoint.
  unfoldable pub search_path : Node E → String → Walk E
  unfolding search
  search_path sn path =
      let segments = path_segments path in
      search (suc (suc (length segments))) segments 1 (get_path_segment segments 0) false sn []
