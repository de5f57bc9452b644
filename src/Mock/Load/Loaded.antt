-- ===== src/Mock/Load/Loaded.antt =====
-- The invariant of the tree that LoadFiles of mockgo/mock/requestHandler.go leaves: every endpoint has its
-- templates and stands under its own path and key.
use mockgo_server.Prelude.{
  ℕ, suc, String, ◌==◌, ◌≡◌, refl, List, [], ◌∷◌, some, Result, ok, err, ◌>>=◌, Bool-cases, inl,
  inr,
}
use mockgo_server.Mock.Model.{Endpoint, Templates}
use mockgo_server.Mock.Tree.{Node, empty_node}
use mockgo_server.Mock.Register.{with_method}
use mockgo_server.Mock.Register.Filed.{IsFiled, empty_node-IsFiled, register_endpoint-IsFiled}
use mockgo_server.Mock.Load.{
  Disk, Config, walk_match, body_text, with_status, init_response_templates, numbered,
  register_if_ok, load_from, load_files, load_endpoints, read_mock_file, replace,
}

module _ {R T : Type 0} where
  -- The templates of the response are parsed: the pointer is not nil.
  abbrev pub HasTemplates : Endpoint R T → Type 0
  HasTemplates e = (t : Templates T) × (e.response.template ≡ some t)

  HasTemplates-with_method : (e : Endpoint R T) → HasTemplates e → HasTemplates (with_method e)
  HasTemplates-with_method e h = elim (Bool-cases (e.request.method == "")) [
    | inl bare ↦ rw bare h
    | inr given ↦ rw given h
  ]

  -- The tree's endpoints all have their templates, and stand under their own paths and keys.
  abbrev pub IsLoaded : Node (Endpoint R T) → Type 0
  IsLoaded tree = IsFiled HasTemplates tree

module _ {R T : Type 0} (disk : Disk R T) where
  -- What holds of every result of the initialisation that is no error.
  Initialised : Result (Endpoint R T) → Type 0
  Initialised (ok e) = HasTemplates e
  Initialised (err problem) = Unit

  init_response_templates-Initialised :
      (mock_dir : String) (e : Endpoint R T) → Initialised (init_response_templates disk mock_dir e)
  unfolding init_response_templates Initialised
  init_response_templates-Initialised mock_dir e = on_text (body_text disk mock_dir e) disk.parse
    where
      on_text :
          (text : Result String) (parse : String → Result T)
          → Initialised (
              text >>= λ t.
              (parse t >>= λ body.
              (parse (with_status disk e) >>= λ status.
              (parse e.response.headers >>= λ header. ok (record e {
                response = record e.response {
                  status_code = with_status disk e;
                  template = some (record { body = body; status = status; header = header });
                };
              })))))
      on_text (err problem) parse = tt
      on_text (ok t) parse =
          on_parsed (parse t) (parse (with_status disk e)) (parse e.response.headers)
        where
          on_parsed :
              (body status header : Result T)
              → Initialised (
                  body >>= λ b.
                  (status >>= λ c.
                  (header >>= λ h. ok (record e {
                    response = record e.response {
                      status_code = with_status disk e;
                      template = some (record { body = b; status = c; header = h });
                    };
                  }))))
          on_parsed (err problem) status header = tt
          on_parsed (ok b) (err problem) header = tt
          on_parsed (ok b) (ok c) (err problem) = tt
          on_parsed (ok b) (ok c) (ok h) = (record { body = b; status = c; header = h }, refl)

  register_if_ok-IsLoaded :
      (found : Result (Endpoint R T)) (tree : Node (Endpoint R T))
      → Initialised found
      → IsLoaded tree
      → IsLoaded (register_if_ok disk found tree)
  unfolding Initialised
  register_if_ok-IsLoaded (ok e) tree h loaded =
      register_endpoint-IsFiled HasTemplates e tree (HasTemplates-with_method e h) loaded
  register_if_ok-IsLoaded (err problem) tree h loaded = loaded

  load_endpoints-IsLoaded :
      (mock_dir name : String) (counter : ℕ) (es : List (Endpoint R T)) (tree : Node (Endpoint R T))
      → IsLoaded tree
      → IsLoaded (load_endpoints disk mock_dir name counter es tree).1
  unfolding load_endpoints
  load_endpoints-IsLoaded mock_dir name counter [] tree loaded = loaded
  load_endpoints-IsLoaded mock_dir name counter (e ∷ es) tree loaded =
      let e' = numbered disk name (suc counter) e in
      load_endpoints-IsLoaded mock_dir name (suc counter) es _ (
        register_if_ok-IsLoaded (init_response_templates disk mock_dir e') tree
          (init_response_templates-Initialised mock_dir e') loaded)

  -- A result that is no error is a tree with the invariant.
  LoadedIfOk : Result (Node (Endpoint R T)) → Type 0
  LoadedIfOk (ok tree) = IsLoaded tree
  LoadedIfOk (err problem) = Unit

  LoadedIfOk-bind :
      {A : Type 0} (found : Result A) (rest : A → Result (Node (Endpoint R T)))
      → ((a : A) → LoadedIfOk (rest a))
      → LoadedIfOk (found >>= rest)
  unfolding LoadedIfOk
  LoadedIfOk-bind (err problem) rest h = tt
  LoadedIfOk-bind (ok a) rest h = h a

  load_from-LoadedIfOk :
      (files : List String) (mock_dir : String) (counter : ℕ) (tree : Node (Endpoint R T))
      → IsLoaded tree
      → LoadedIfOk (load_from disk mock_dir counter files tree)
  unfolding load_from LoadedIfOk
  load_from-LoadedIfOk [] mock_dir counter tree loaded = loaded
  load_from-LoadedIfOk (file ∷ files) mock_dir counter tree loaded =
      LoadedIfOk-bind (read_mock_file disk file) _ λ m.
        load_from-LoadedIfOk files mock_dir _ _
          (load_endpoints-IsLoaded mock_dir m.name counter m.endpoints tree loaded)

  replace-IsLoaded :
      (found : Result (Node (Endpoint R T))) (old : Node (Endpoint R T))
      → LoadedIfOk found
      → IsLoaded old
      → IsLoaded (replace disk found old).1
  unfolding replace LoadedIfOk
  replace-IsLoaded (ok new) old h loaded = h
  replace-IsLoaded (err problem) old h loaded = loaded

  -- LoadFiles leaves a tree in which every endpoint has its templates and stands under its own path and
  -- key, if the old tree is of this kind too, which stays when the loading fails.
  pub load_files-IsLoaded :
      (config : Config) (tree : Node (Endpoint R T))
      → IsLoaded tree
      → IsLoaded (load_files disk config tree).1
  unfolding load_files
  load_files-IsLoaded config tree loaded =
      replace-IsLoaded _ tree
        (LoadedIfOk-bind (walk_match disk config.mock_dir config.mock_filepattern) _ λ files.
          load_from-LoadedIfOk files config.mock_dir 0 empty_node (empty_node-IsFiled HasTemplates))
        loaded
