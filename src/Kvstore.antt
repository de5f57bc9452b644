-- ===== src/Kvstore.antt =====
-- mockgo/kvstore: the values, the interface Storage and its implementation in memory.
pub mod Laws
pub mod Written
pub mod Functions
pub mod Removal
pub mod Storing
pub mod Handlers
pub mod Handled
pub mod Api
use mockgo_server.Prelude.{
  String, Option, none, some, List, [], ◌∷◌, Bool, Result, ok, GoMap, lookup, insert, or_zero,
}

-- An `interface{}` that holds what json.Unmarshal makes of a text. `null` is `nil`; a number is held
-- by its text.
mutual
  pub data Value : Type 0 where
    null : Value
    obj : Fields → Value
    arr : Items → Value
    str : String → Value
    num : String → Value
    bool : Bool → Value

  pub data Fields : Type 0 where
    no_field : Fields
    field : String → Value → Fields → Fields

  pub data Items : Type 0 where
    no_item : Items
    item : Value → Items → Items

-- The interface Storage. An operation returns its result and the state that it leaves, also where it
-- fails. `GetAll` may return a nil map, which is `none`.
pub record Storage : Type 1 where
  pub State : Type 0
  pub get_all : String → State → Result (Option (GoMap Value)) × State
  pub put : String → String → Value → State → Result (Unit {0}) × State
  pub get : String → String → State → Result Value × State
  pub shutdown : State → Result (Unit {0}) × State

-- `map[string]map[string]interface{}` of InmemoryStorage
abbrev pub Stores : Type 0
Stores = GoMap (GoMap Value)

-- NewInmemoryStorage
abbrev pub new_inmemory_storage : Stores
new_inmemory_storage = []

unfoldable pub get_all : String → Stores → Result (Option (GoMap Value)) × Stores
get_all store s = elim (lookup store s) [ none ↦ (ok none, s) | some st ↦ (ok (some st), s) ]

unfoldable pub get : String → String → Stores → Result Value × Stores
get store key s = elim (lookup store s) [
  | none ↦ (ok null, s)
  | some st ↦ (ok (or_zero null (lookup key st)), s)
]

-- `st := s.store[store]`, made first where it is nil
unfoldable pub put : String → String → Value → Stores → Result (Unit {0}) × Stores
put store key val s = elim (lookup store s) [
  | none ↦ (ok tt, insert store (insert key val []) (insert store [] s))
  | some st ↦ (ok tt, insert store (insert key val st) s)
]

abbrev pub shutdown : Stores → Result (Unit {0}) × Stores
shutdown s = (ok tt, s)

-- InmemoryStorage as a Storage
abbrev pub inmemory_storage : Storage
inmemory_storage = record {
  State = Stores;
  get_all = get_all;
  put = put;
  get = get;
  shutdown = shutdown;
}
