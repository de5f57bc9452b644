-- ===== src/Kvstore/Functions.antt =====
-- NewKVStoreTemplateFuncMap of mockgo/kvstore/storage.go: the functions through which a response
-- template reads and writes the key-value store.
use mockgo_server.Prelude.{String, Bool, true, false, Option, GoMap, Result, ok, err}
use mockgo_server.Kvstore.{Value, null, str, Storage}

abbrev pub is_nil : Value → Bool
is_nil null = true
is_nil _ = false

-- What `kvStoreGetAll` returns: the map, which may be nil, or the text of the error.
pub data Found : Type 0 where
  entries : Option (GoMap Value) → Found
  failure : String → Found

-- The texts that `kvStorePut` and `kvStoreRemove` return.
message : Result (Unit {0}) → String
message (ok _) = ""
message (err e) = e

value_or_message : Result Value → Value
value_or_message (ok val) = val
value_or_message (err e) = str e

entries_or_message : Result (Option (GoMap Value)) → Found
entries_or_message (ok m) = entries m
entries_or_message (err e) = failure e

has_value : Result Value → Bool
has_value (ok val) = elim (is_nil val) [ true ↦ false | false ↦ true ]
has_value (err e) = false

module _ (storage : Storage) where
  open storage use {State, get, get_all, put}

  unfoldable pub kv_store_get : String → String → State → Value × State
  unfolding value_or_message
  kv_store_get store key s = let (r, s') = get store key s in (value_or_message r, s')

  unfoldable pub kv_store_get_all : String → State → Found × State
  unfolding entries_or_message
  kv_store_get_all store s = let (r, s') = get_all store s in (entries_or_message r, s')

  unfoldable pub kv_store_has_key : String → String → State → Bool × State
  unfolding has_value
  kv_store_has_key store key s = let (r, s') = get store key s in (has_value r, s')

  unfoldable pub kv_store_put : String → String → Value → State → String × State
  unfolding message
  kv_store_put store key val s = let (r, s') = put store key val s in (message r, s')

  unfoldable pub kv_store_remove : String → String → State → String × State
  unfolding message
  kv_store_remove store key s = let (r, s') = put store key null s in (message r, s')
