-- ===== src/Kvstore/Removal.antt =====
-- kvStoreRemove of mockgo/kvstore/storage.go over the storage in memory: what is left of the key.
use mockgo_server.Prelude.{
  String, ◌≡◌, refl, false, some, arith, GoMap, lookup, lookup-insert, insert, or_zero, eq_refl,
}
use mockgo_server.Kvstore.{[], Value, null, Stores, inmemory_storage, get_all}
use mockgo_server.Kvstore.Laws.{get-put_self, lookup-put}
use mockgo_server.Kvstore.Functions.{kv_store_remove, kv_store_has_key, kv_store_get_all, entries}

-- After `kvStoreRemove` the function `kvStoreHasKey` denies the key, and the map that `kvStoreGetAll`
-- returns still has the key, with a nil value.
kv_store_remove_keeps_key :
    (store key : String) (s : Stores)
    → ((kv_store_has_key inmemory_storage store key
          (kv_store_remove inmemory_storage store key s).1).0
        ≡ false)
      × ((m : GoMap Value) × ((kv_store_get_all inmemory_storage store
              (kv_store_remove inmemory_storage store key s).1).0
            ≡ entries (some m))
          × (lookup key m ≡ some null))
unfolding kv_store_remove kv_store_has_key kv_store_get_all get_all
kv_store_remove_keeps_key store key s = (
  rw get-put_self refl,
  (
    insert key null (or_zero [] (lookup store s)),
    ground (arith, lookup-put store key store null s, eq_refl store),
    ground (arith, lookup-insert key key null (or_zero [] (lookup store s)), eq_refl key),
  ),
)
