-- ===== src/Kvstore/Laws.antt =====
-- What the storage in memory keeps: mockgo/kvstore/storage.go.
use mockgo_server.Prelude.{
  eq_refl, String, ◌≡◌, eq_iff, some, arith, ◌==◌, ◌&&◌, if◌then◌else◌, ok, lookup, insert,
  lookup-insert, lookup-nil, or_zero, [],
}
use mockgo_server.Kvstore.{Value, Stores, get, put}

-- The map of a store after Put: of this store the old map, or an empty one, with the value; any other
-- stays.
pub lookup-put :
    (store key other : String) (val : Value) (s : Stores)
    → lookup other (put store key val s).1 ≡ (
        if store == other
        then some (insert key val (or_zero [] (lookup store s)))
        else lookup other s)
unfolding put
lookup-put store key other val s = ground (
  arith,
  lookup-insert store other (insert key val []) (insert store [] s),
  lookup-insert store other [] s,
  lookup-insert store other (insert key val (or_zero [] (lookup store s))) s,
)

-- Get returns the value that was put under this store and key last; every other value stays.
pub get-put :
    (store key other name : String) (val : Value) (s : Stores)
    → (get other name (put store key val s).1).0
      ≡ (if store == other && key == name then ok val else (get other name s).0)
unfolding get
get-put store key other name val s = ground (
  arith,
  eq_iff store other,
  lookup-insert key name val [],
  lookup-nil {V = Value} name,
  lookup-put store key other val s,
  lookup-insert key name val (or_zero [] (lookup store s)),
)

pub get-put_self :
    (store key : String) (val : Value) (s : Stores)
    → (get store key (put store key val s).1).0 ≡ ok val
get-put_self store key val s =
    ground (arith, get-put store key store key val s, eq_refl store, eq_refl key)

-- A write to the storage in memory does not fail.
pub put-ok : (store key : String) (val : Value) (s : Stores) → (put store key val s).0 ≡ ok tt
unfolding put
put-ok store key val s = ground arith
