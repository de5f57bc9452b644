-- ===== src/Kvstore/Storing.antt =====
-- What the clients of the interface Storage of mockgo/kvstore/storage.go rely on.
use mockgo_server.Prelude.{String, ◌==◌, ◌&&◌, ◌≡◌, arith, if◌then◌else◌, ok}
use mockgo_server.Kvstore.{Value, Storage, inmemory_storage, get, get_all}
use mockgo_server.Kvstore.Laws.{get-put, put-ok}

-- A write succeeds, and a read finds the last value that was put under its store and key; reads change nothing.
pub record StoresValues (storage : Storage) : Type 0 where
  pub put_succeeds :
      (store key : String) (val : Value) (s : storage.State)
      → (storage.put store key val s).0 ≡ ok tt
  pub get_after_put :
      (store key other name : String) (val : Value) (s : storage.State)
      → (storage.get other name (storage.put store key val s).1).0
        ≡ (if store == other && key == name then ok val else (storage.get other name s).0)
  pub get_keeps : (store key : String) (s : storage.State) → (storage.get store key s).1 ≡ s
  pub get_all_keeps : (store : String) (s : storage.State) → (storage.get_all store s).1 ≡ s

pub inmemory-StoresValues : StoresValues inmemory_storage
unfolding get get_all
inmemory-StoresValues = record {
  put_succeeds = put-ok;
  get_after_put = get-put;
  get_keeps = λ store key s. ground arith;
  get_all_keeps = λ store s. ground arith;
}
