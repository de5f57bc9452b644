-- ===== src/Mock/Load/Reload.antt =====
-- What LoadFiles and handleReload of mockgo/mock/requestHandler.go leave, against a description without
-- loops that are nested: all endpoints of all files, numbered through.
use mockgo_server.Prelude.{
  ℕ, suc, ◌≡◌, refl, ap, sym, ◌∙◌, String, List, [], ◌∷◌, ◌++◌, Result, ok, err, ◌>>=◌,
}
use mockgo_server.Http.{Request}
use mockgo_server.Http.Writer.{Writer, write_header}
use mockgo_server.Mock.Model.{Endpoint, Mock}
use mockgo_server.Mock.Tree.{Node, empty_node}
use mockgo_server.Mock.Load.{
  answer_reload, replace, Disk, Config, walk_match, read_mock_file, init_response_templates,
  numbered, register_if_ok, load_endpoints, load_from, load_files, handle_reload,
}

module _ {R T : Type 0} (disk : Disk R T) where
  -- All files read, or the first error.
  pub read_mocks : List String → Result (List (Mock R T))
  read_mocks [] = ok []
  read_mocks (file ∷ files) =
      read_mock_file disk file >>= λ m. (read_mocks files >>= λ ms. ok (m ∷ ms))

  abbrev tagged : String → List (Endpoint R T) → List (String × Endpoint R T)
  tagged name [] = []
  tagged name (e ∷ es) = (name, e) ∷ tagged name es

  -- The endpoints of the mocks in their order, each with the name of its mock.
  abbrev pub all_endpoints : List (Mock R T) → List (String × Endpoint R T)
  all_endpoints [] = []
  all_endpoints (m ∷ ms) = tagged m.name m.endpoints ++ all_endpoints ms

  -- The registration of the endpoints behind the first `counter` ones.
  pub register_all :
      String → ℕ → List (String × Endpoint R T) → Node (Endpoint R T) → Node (Endpoint R T)
  register_all mock_dir counter [] tree = tree
  register_all mock_dir counter ((name, e) ∷ es) tree = register_all mock_dir (suc counter) es (
      register_if_ok disk
        (init_response_templates disk mock_dir (numbered disk name (suc counter) e)) tree)

  load_endpoints-register_all :
      (mock_dir name : String) (counter : ℕ) (es : List (Endpoint R T))
      (more : List (String × Endpoint R T)) (tree : Node (Endpoint R T))
      → register_all mock_dir counter (tagged name es ++ more) tree ≡ (
          let (c, t) = load_endpoints disk mock_dir name counter es tree in
          register_all mock_dir c more t)
  unfolding load_endpoints register_all
  load_endpoints-register_all mock_dir name counter [] more tree = refl
  load_endpoints-register_all mock_dir name counter (e ∷ es) more tree =
      load_endpoints-register_all mock_dir name (suc counter) es more _

  register_all-cons :
      (mock_dir : String) (counter : ℕ) (m : Mock R T) (tree : Node (Endpoint R T))
      (rest : Result (List (Mock R T)))
      → (rest >>= λ ms. ok (
          let (c, t) = load_endpoints disk mock_dir m.name counter m.endpoints tree in
          register_all mock_dir c (all_endpoints ms) t))
        ≡ ((rest >>= λ ms. ok (m ∷ ms)) >>= λ ms.
            ok (register_all mock_dir counter (all_endpoints ms) tree))
  register_all-cons mock_dir counter m tree (err e) = refl
  register_all-cons mock_dir counter m tree (ok ms) = ap ok (
      sym (load_endpoints-register_all mock_dir m.name counter m.endpoints (all_endpoints ms) tree))

  load_from-register_all :
      (mock_dir : String) (counter : ℕ) (files : List String) (tree : Node (Endpoint R T))
      → load_from disk mock_dir counter files tree
        ≡ (read_mocks files >>= λ ms. ok (register_all mock_dir counter (all_endpoints ms) tree))
  unfolding load_from read_mocks register_all
  load_from-register_all mock_dir counter [] tree = refl
  load_from-register_all mock_dir counter (file ∷ files) tree =
      go (read_mock_file disk file) (λ c t. load_from-register_all mock_dir c files t)
    where
      go :
          (found : Result (Mock R T))
          → ((c : ℕ) (t : Node (Endpoint R T))
              → load_from disk mock_dir c files t
                ≡ (read_mocks files >>= λ ms. ok (register_all mock_dir c (all_endpoints ms) t)))
          → (found >>= λ m.
              let (c, t) = load_endpoints disk mock_dir m.name counter m.endpoints tree in
              load_from disk mock_dir c files t)
            ≡ ((found >>= λ m. (read_mocks files >>= λ ms. ok (m ∷ ms))) >>= λ ms.
                ok (register_all mock_dir counter (all_endpoints ms) tree))
      go (err e) ih = refl
      go (ok m) ih = ih _ _ ∙ register_all-cons mock_dir counter m tree (read_mocks files)

  -- handleReload answers 500 and keeps the tree if the walk or the reading of a file fails. Else it
  -- answers 200 and leaves a new tree, to which the endpoints of all files were registered in their
  -- order, each under its own ID or the number that it has among all, but those whose templates cannot
  -- be initialised. Nothing of the old tree is kept.
  pub handle_reload_lem :
      (config : Config) (r : Request) (w : Writer) (tree : Node (Endpoint R T))
      → handle_reload disk config r w tree
        ≡ (elim (walk_match disk config.mock_dir config.mock_filepattern >>= λ files.
            read_mocks files) [
              | err e ↦ (write_header 500 w, tree)
              | ok ms ↦
                  (write_header 200 w, register_all config.mock_dir 0 (all_endpoints ms) empty_node)
            ])
  unfolding handle_reload load_files replace answer_reload
  handle_reload_lem config r w tree = go (walk_match disk config.mock_dir config.mock_filepattern)
    where
      reply : Result (Node (Endpoint R T)) → Writer × Node (Endpoint R T)
      reply found =
          let (done, tree') = replace disk found tree in (answer_reload disk done w, tree')

      on_read :
          (read : Result (List (Mock R T)))
          → reply (read >>= λ ms. ok (register_all config.mock_dir 0 (all_endpoints ms) empty_node))
            ≡ (elim read [
              | err e ↦ (write_header 500 w, tree)
              | ok ms ↦
                  (write_header 200 w, register_all config.mock_dir 0 (all_endpoints ms) empty_node)
            ])
      on_read (err e) = refl
      on_read (ok ms) = refl

      go :
          (files : Result (List String))
          → reply (files >>= λ files. load_from disk config.mock_dir 0 files empty_node)
            ≡ (elim (files >>= λ files. read_mocks files) [
              | err e ↦ (write_header 500 w, tree)
              | ok ms ↦
                  (write_header 200 w, register_all config.mock_dir 0 (all_endpoints ms) empty_node)
            ])
      go (err e) = refl
      go (ok files) =
          ap reply (load_from-register_all config.mock_dir 0 files empty_node)
          ∙ on_read (read_mocks files)
