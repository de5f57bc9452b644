-- ===== src/Mock/Load.antt =====
-- LoadFiles of mockgo/mock/requestHandler.go and what it calls, and handleReload. An endpoint has a
-- request and a response, as every endpoint that the server can serve.
pub mod Reload
pub mod Loaded
mod Tests
use text.Mathlib.Text.{starts_with}
use mockgo_server.Prelude.{
  ℕ, suc, ◌<>◌, ◌==◌, String, Bool, true, false, ◌&&◌, ◌||◌, not, List, [], ◌∷◌, ◌++◌, Option, none,
  some, Result, ok, err, ◌>>=◌, if◌then◌else◌, has_suffix,
}
use mockgo_server.Prelude.Decimal.{itoa}
use mockgo_server.Http.Writer.{Writer, write_header}
use mockgo_server.Util.{Handler}
use mockgo_server.Mock.Model.{Endpoint, Templates, Mock}
use mockgo_server.Mock.Tree.{Node, empty_node}
use mockgo_server.Mock.Register.{register_endpoint}

-- A file or a directory that filepath.Walk visits, with its base name and its directory, and the error
-- that the visit reports.
pub record Visit : Type 0 where
  pub path : String
  pub base : String
  pub dir : String
  pub is_dir : Bool
  pub fault : Option String

-- The file system, and what is used of the packages filepath, yaml, regexp and text/template: the
-- visits of a walk in their order, Match, ReadFile, Base and Join, the decoding of a mock file, and the
-- parsing of an expression and of a template.
pub record Disk (R T : Type 0) : Type 0 where
  pub visits : String → List Visit
  pub glob : String → String → Result Bool
  pub read_file : String → Result String
  pub base : String → String
  pub join : String → String → String
  pub unmarshal_mock : String → Result (Mock R T)
  pub compile : String → Result R
  pub parse : String → Result T

-- The fields of RequestHandler that LoadFiles reads.
pub record Config : Type 0 where
  pub mock_dir : String
  pub mock_filepattern : String

module _ {R T : Type 0} (disk : Disk R T) where
  -- A file that matches; with an absolute root it has to stand in the root itself.
  add_if : String → Visit → List String → Bool → List String
  add_if root v found matched =
      if matched && (not (starts_with root "/") || v.dir == root)
      then found ++ v.path ∷ []
      else found

  -- The function that walkMatch hands to filepath.Walk.
  visit : String → String → List String → Visit → Result (List String)
  unfolding add_if
  visit root pattern found v = elim v.fault [
    | some e ↦ err e
    | none ↦ elim v.is_dir [
      | true ↦ ok found
      | false ↦ disk.glob pattern v.base >>= λ matched. ok (add_if root v found matched)
    ]
  ]

  visit_all : String → String → List String → List Visit → Result (List String)
  unfolding visit
  visit_all root pattern found [] = ok found
  visit_all root pattern found (v ∷ vs) =
      visit root pattern found v >>= λ more. visit_all root pattern more vs

  -- walkMatch
  unfoldable pub walk_match : String → String → Result (List String)
  unfolding visit_all
  walk_match root pattern = visit_all root pattern [] (disk.visits root)

  -- The body expression of an endpoint, where it has one.
  compile_body : Endpoint R T → Result (Endpoint R T)
  compile_body e = elim (e.request.body == "") [
    | true ↦ ok e
    | false ↦ disk.compile e.request.body >>= λ re.
        ok (record e { request = record e.request { body_regexp = some re } })
  ]

  compile_bodies : List (Endpoint R T) → Result (List (Endpoint R T))
  unfolding compile_body
  compile_bodies [] = ok []
  compile_bodies (e ∷ es) = compile_body e >>= λ e'. (compile_bodies es >>= λ es'. ok (e' ∷ es'))

  abbrev no_mock : Mock R T
  no_mock = record { name = ""; endpoints = [] }

  decode : String → String → Result (Mock R T)
  unfolding has_suffix
  decode file content =
      if has_suffix file ".yaml" || has_suffix file ".yml"
      then disk.unmarshal_mock content
      else ok no_mock

  abbrev named : String → Mock R T → Mock R T
  named file m = if m.name == "" then record m { name = disk.base file } else m

  -- readMockFile; a file that is no YAML file has no endpoint
  unfoldable pub read_mock_file : String → Result (Mock R T)
  unfolding decode compile_bodies
  read_mock_file file = disk.read_file file >>= λ content.
      (decode file content >>= λ m.
      (compile_bodies m.endpoints >>= λ es. ok (record (named file m) { endpoints = es })))

  body_text : String → Endpoint R T → Result String
  body_text mock_dir e =
      if e.response.body == ""
      then (if e.response.body_filename == ""
          then ok ""
          else disk.read_file (disk.join mock_dir e.response.body_filename))
      else if e.response.body_filename == ""
      then ok e.response.body
      else err (
          "error parsing endpoint id '" <> e.id
          <> "' , response.body and response.bodyFilename can't be defined both")

  abbrev with_status : Endpoint R T → String
  with_status e = if e.response.status_code == "" then "200" else e.response.status_code

  -- initResponseTemplates
  unfoldable pub init_response_templates : String → Endpoint R T → Result (Endpoint R T)
  unfolding body_text
  init_response_templates mock_dir e = body_text mock_dir e >>= λ text.
      (disk.parse text >>= λ body.
      (disk.parse (with_status e) >>= λ status.
      (disk.parse e.response.headers >>= λ header. ok (record e {
        response = record e.response {
          status_code = with_status e;
          template = some (record { body = body; status = status; header = header });
        };
      }))))

  -- The endpoint with its number for an ID, if it has none, and with its mock.
  abbrev pub numbered : String → ℕ → Endpoint R T → Endpoint R T
  numbered mock_name number e = record (if e.id == "" then record e { id = itoa number } else e) {
    mock = some mock_name;
  }

  -- An endpoint whose templates cannot be initialised is skipped.
  abbrev pub register_if_ok : Result (Endpoint R T) → Node (Endpoint R T) → Node (Endpoint R T)
  register_if_ok (ok e) tree = register_endpoint e tree
  register_if_ok (err problem) tree = tree

  -- The loop over the endpoints of a mock file, with the counter and the new tree.
  load_endpoints :
      String → String → ℕ → List (Endpoint R T) → Node (Endpoint R T) → ℕ × Node (Endpoint R T)
  unfolding init_response_templates
  load_endpoints mock_dir mock_name counter [] tree = (counter, tree)
  load_endpoints mock_dir mock_name counter (e ∷ es) tree =
      load_endpoints mock_dir mock_name (suc counter) es (
        register_if_ok (init_response_templates mock_dir (numbered mock_name (suc counter) e)) tree)

  -- The loop over the mock files.
  load_from : String → ℕ → List String → Node (Endpoint R T) → Result (Node (Endpoint R T))
  unfolding load_endpoints read_mock_file
  load_from mock_dir counter [] tree = ok tree
  load_from mock_dir counter (file ∷ files) tree = read_mock_file file >>= λ m.
      let (counter', tree') = load_endpoints mock_dir m.name counter m.endpoints tree in
      load_from mock_dir counter' files tree'

  -- The assignment at the end of LoadFiles, which an error skips.
  replace :
      Result (Node (Endpoint R T)) → Node (Endpoint R T) → Result (Unit {0}) × Node (Endpoint R T)
  replace (ok new) old = (ok tt, new)
  replace (err e) old = (err e, old)

  -- LoadFiles
  unfoldable pub load_files : Config → Node (Endpoint R T) → Result (Unit {0}) × Node (Endpoint R T)
  unfolding replace load_from walk_match
  load_files config tree =
      replace
        (walk_match config.mock_dir config.mock_filepattern >>= λ files.
          load_from config.mock_dir 0 files empty_node)
        tree

  answer_reload : Result (Unit {0}) → Writer → Writer
  answer_reload (err e) w = write_header 500 w
  answer_reload (ok _) w = write_header 200 w

  -- handleReload
  unfoldable pub handle_reload : Config → Handler (Node (Endpoint R T))
  unfolding load_files answer_reload
  handle_reload config r w tree =
      let (done, tree') = load_files config tree in (answer_reload done w, tree')

-- RequestHandler of package mock, over the types of the match store, of the template functions and of the
-- logger.
pub record RequestHandler (R T S F L : Type 0) : Type 0 where
  pub path_prefix : String
  pub mock_dir : String
  pub mock_filepattern : String
  pub logger : L
  pub ep_search_node : Node (Endpoint R T)
  pub matchstore : S
  pub func_map : F

-- NewRequestHandler, with what util.CreateLogger returns for its log level
unfoldable pub new_request_handler :
    {R T S F L : Type 0}
    → String
    → String
    → String
    → S
    → F
    → Result L
    → Result (RequestHandler R T S F L)
new_request_handler path_prefix mock_dir mock_filepattern matchstore func_map logger =
    logger >>= λ l. ok (record {
      path_prefix = path_prefix;
      mock_dir = mock_dir;
      mock_filepattern = mock_filepattern;
      logger = l;
      ep_search_node = empty_node;
      matchstore = matchstore;
      func_map = func_map;
    })
