-- ===== src/Redis/Matchstore/Capacity.antt =====
-- The bound of the lists of mockgo-redis/matchstore/matchstore.go.
use mockgo_server.Prelude.{
  has_suffix, Bool, true, ◌-◌, eq_iff, ltb→lt, ltb→le, ℕ, suc, ◌≤◌, String, ◌==◌, ◌≡◌, refl, ◌∙◌,
  arith, false, List, [], ◌∷◌, ◌++◌, Result, ok, err, length, drop, length-append, eq_refl,
  if◌then◌else◌, Bool-cases, inl, inr, ltb,
}
use mockgo_server.Matches.Inmemory.Capacity.{last}
use mockgo_server.Redis.{Client}
use mockgo_server.Redis.Matchstore.{push, and_then, trim, counter_key}

-- What the documentation of Redis says of RPUSH, LLEN, LRANGE, LPOP, INCR, DEL and SET, for a server that answers, by
-- the list that a key holds, which is empty if the key holds no list, and by whether it holds nothing but a list. A
-- command for lists is an error for a key that holds a value of another kind, and changes nothing then.
pub record Lists (client : Client) : Type 0 where
  pub items : client.Server → String → List String
  pub is_list : client.Server → String → Bool
  pub rpush-ok :
      (key text : String) (s : client.Server)
      → is_list s key ≡ true
      → (client.rpush key text s).0 ≡ ok tt
  pub items-rpush :
      (key text other : String) (s : client.Server)
      → is_list s key ≡ true
      → items (client.rpush key text s).1 other
        ≡ (if key == other then items s key ++ text ∷ [] else items s other)
  pub is_list-rpush :
      (key text other : String) (s : client.Server)
      → is_list (client.rpush key text s).1 other ≡ is_list s other
  pub llen-items :
      (key : String) (s : client.Server)
      → is_list s key ≡ true
      → client.llen key s ≡ ok (length (items s key))
  pub lrange-items :
      (key : String) (s : client.Server)
      → is_list s key ≡ true
      → client.lrange key s ≡ ok (items s key)
  pub lpop-ok :
      (key : String) (s : client.Server) → 1 ≤ length (items s key) → (client.lpop key s).0 ≡ ok tt
  pub items-lpop :
      (key other : String) (s : client.Server)
      → items (client.lpop key s).1 other
        ≡ (if key == other then drop 1 (items s key) else items s other)
  pub is_list-lpop :
      (key other : String) (s : client.Server)
      → is_list (client.lpop key s).1 other ≡ is_list s other
  pub items-incr :
      (key other : String) (s : client.Server) → items (client.incr key s).1 other ≡ items s other
  pub is_list-incr :
      (key other : String) (s : client.Server)
      → (key == other) ≡ false
      → is_list (client.incr key s).1 other ≡ is_list s other
  pub del-ok : (key : String) (s : client.Server) → (client.del key s).0 ≡ ok tt
  pub items-del :
      (key other : String) (s : client.Server)
      → items (client.del key s).1 other ≡ (if key == other then [] else items s other)
  pub is_list-del :
      (key other : String) (s : client.Server)
      → is_list (client.del key s).1 other ≡ (if key == other then true else is_list s other)
  pub items-set_zero :
      (key other : String) (s : client.Server)
      → items (client.set_zero key s).1 other ≡ (if key == other then [] else items s other)
  pub is_list-set_zero :
      (key other : String) (s : client.Server)
      → (key == other) ≡ false
      → is_list (client.set_zero key s).1 other ≡ is_list s other

-- The keys of the lists hold nothing.
abbrev pub IsEmpty : (client : Client) → Lists client → client.Server → Type 0
IsEmpty client l s =
    (key : String)
    → has_suffix key "__counter__" ≡ false
    → (l.items s key ≡ []) × (l.is_list s key ≡ true)

module _ (client : Client) (l : Lists client) (capacity : ℕ) where
  trim_lem :
      (key : String) (s : client.Server)
      → l.is_list s key ≡ true
      → length (l.items s key) ≤ suc capacity
      → ((trim client capacity key s).0 ≡ ok tt)
        × ((other : String)
            → l.items (trim client capacity key s).1 other
              ≡ (if key == other then last capacity (l.items s key) else l.items s other))
  unfolding trim
  trim_lem key s is h = elim (Bool-cases (ltb capacity (length (l.items s key)))) [
    | inl over ↦
        let one : length (l.items s key) - capacity ≡ 1 = omega (arith, ltb→lt _ _ over) in
        rw (trim, l.llen-items key s is, over, one)
          (l.lpop-ok key s (omega (arith, ltb→lt _ _ over)), λ other. l.items-lpop key other s)
    | inr room ↦
        let none' : length (l.items s key) - capacity ≡ 0 = omega (arith, ltb→le _ _ room) in
        rw (trim, l.llen-items key s is, room, none')
          (refl, λ other. ground (arith, eq_iff key other))
  ]

  pub and_then_of_ok :
      (x : Result (Unit {0}) × client.Server)
      (next : client.Server → Result (Unit {0}) × client.Server)
      → x.0 ≡ ok tt
      → and_then client capacity x next ≡ next x.1
  unfolding and_then
  and_then_of_ok (ok _, s) next h = refl
  and_then_of_ok (err e, s) next h = cc

  is_list-trim :
      (key other : String) (s : client.Server)
      → l.is_list s key ≡ true
      → l.is_list (trim client capacity key s).1 other ≡ l.is_list s other
  unfolding trim
  is_list-trim key other s is = elim (Bool-cases (ltb capacity (length (l.items s key)))) [
    | inl over ↦ rw (trim, l.llen-items key s is, over) (l.is_list-lpop key other s)
    | inr room ↦ rw (trim, l.llen-items key s is, room) refl
  ]

  -- The steps of a push: the text is put behind the list of its key, of which the last elements stay; no other list
  -- changes; and then the counter is increased.
  pub push_steps :
      (key text : String) (s : client.Server)
      → l.is_list s key ≡ true
      → length (l.items s key) ≤ capacity
      → let trimmed = (trim client capacity key (client.rpush key text s).1).1 in
        (push client capacity key (ok text) s ≡ client.incr (counter_key key) trimmed)
        × ((other : String) → l.is_list trimmed other ≡ l.is_list s other)
        × ((other : String)
            → l.items trimmed other ≡ (
                if key == other
                then last capacity (l.items s key ++ text ∷ [])
                else l.items s other))
  unfolding push
  push_steps key text s is h =
      let s1 = (client.rpush key text s).1 in
      let still : l.is_list s1 key ≡ true = l.is_list-rpush key text key s ∙ is in
      let pushed : l.items s1 key ≡ l.items s key ++ text ∷ [] =
        ground (arith, l.items-rpush key text key s is, eq_refl key) in
      let (trimmed, kept) =
        trim_lem key s1 still
          (rw pushed (omega (arith, length-append (l.items s key) (text ∷ [])))) in
      (
        and_then_of_ok (client.rpush key text s) _ (l.rpush-ok key text s is)
            ∙ and_then_of_ok (trim client capacity key s1) (client.incr (counter_key key)) trimmed,
        (λ other. is_list-trim key other s1 still ∙ l.is_list-rpush key text other s),
        λ other. ground (arith, kept other, pushed, l.items-rpush key text other s is),
      )

  -- The new text is put behind the list of its key, of which the last elements stay; no other list changes, and no key
  -- but that of the counter gets a value of another kind.
  pub push_lem :
      (key text : String) (s : client.Server)
      → l.is_list s key ≡ true
      → length (l.items s key) ≤ capacity
      → ((other : String)
          → (counter_key key == other) ≡ false
          → l.is_list (push client capacity key (ok text) s).1 other ≡ l.is_list s other)
        × ((other : String)
            → l.items (push client capacity key (ok text) s).1 other ≡ (
                if key == other
                then last capacity (l.items s key ++ text ∷ [])
                else l.items s other))
  push_lem key text s is h =
      let (steps, lists, kept) = push_steps key text s is h in
      let s2 = (trim client capacity key (client.rpush key text s).1).1 in
      rw steps (
        (λ other differs. l.is_list-incr (counter_key key) other s2 differs ∙ lists other),
        λ other. l.items-incr (counter_key key) other s2 ∙ kept other,
      )
