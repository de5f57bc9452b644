-- ===== src/Kvstore/Written.antt =====
-- Calls of Put on a storage of mockgo/kvstore/storage.go, one after the other, and what Get returns after them.
use mockgo_server.Prelude.{
  String, ◌≡◌, ◌==◌, ◌&&◌, arith, Option, some, List, [], ◌∷◌, ok, if◌then◌else◌, or_zero,
}
use mockgo_server.Kvstore.{Value, null, Storage, Stores, inmemory_storage, get}
use mockgo_server.Kvstore.Laws.{get-put}
use mockgo_server.Kvstore.Handlers.{Json}

-- A call of Put
pub record Written : Type 0 where
  pub store : String
  pub key : String
  pub val : Value

-- The specification: the value under a store and a key after calls of Put, in their order.
abbrev pub note_put : (String → String → Option Value) → Written → String → String → Option Value
note_put held c store key = if c.store == store && c.key == key then some c.val else held store key

abbrev pub note_puts :
    (String → String → Option Value) → List Written → String → String → Option Value
note_puts held [] = held
note_puts held (c ∷ cs) = note_puts (note_put held c) cs

-- The storage after calls of Put.
abbrev pub put_all : (storage : Storage) → List Written → storage.State → storage.State
put_all storage [] s = s
put_all storage (c ∷ cs) s = put_all storage cs (storage.put c.store c.key c.val s).1

-- JSON gives the value back as it was.
abbrev pub IsEncoded : Json → (Value → String) → Value → Type 0
IsEncoded json encode v = (json.marshal v ≡ ok (encode v)) × (json.unmarshal (encode v) ≡ ok v)

pub get-put_all :
    (cs : List Written) (held : String → String → Option Value) (s : Stores)
    → ((store key : String) → (get store key s).0 ≡ ok (or_zero null (held store key)))
    → (store key : String)
    → (get store key (put_all inmemory_storage cs s)).0
      ≡ ok (or_zero null (note_puts held cs store key))
get-put_all [] held s same = same
get-put_all (c ∷ cs) held s same =
    get-put_all cs (note_put held c) _
      (λ store key. ground (arith, get-put c.store c.key store key c.val s, same store key))
