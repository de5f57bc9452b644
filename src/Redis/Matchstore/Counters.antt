-- ===== src/Redis/Matchstore/Counters.antt =====
-- The counters of mockgo-redis/matchstore/matchstore.go: the numbers under the keys with `__counter__`.
use text.Mathlib.TextLemmas.{append_cancel_right}
use mockgo_server.Prelude.{
  Bool, true, ℕ, suc, ◌<◌, ◌≤◌, ◌^◌, String, ◌==◌, ◌≡◌, refl, ap, ◌∙◌, inl, inr, arith, false,
  Bool-cases, eq_iff, eq_refl, eq_ne, Option, none, some, or_zero, if◌then◌else◌, Result, ok, err,
  ◌>>=◌, length, ltb, has_suffix,
}
use mockgo_server.Redis.{Client}
use mockgo_server.Redis.Matchstore.{remove, counter_key, push, trim}
use mockgo_server.Redis.Matchstore.Capacity.{Lists, push_steps, and_then_of_ok}
use mockgo_server.Redis.Matchstore.Calls.{name-ne-counter}

abbrev pub or_missing : Option ℕ → Result ℕ
or_missing none = err "redis: nil"
or_missing (some n) = ok n

-- What the documentation of Redis and go-redis says of INCR, SET, DEL, RPUSH, LPOP and GET, for a server that
-- answers, by the number that a key holds, and whether it holds a number or nothing: INCR adds one, from zero where
-- there is none, below the bound of 64 bits with a sign; INCR and GET are errors for a list.
pub record Numbers (client : Client) (l : Lists client) : Type 0 where
  pub number : client.Server → String → Option ℕ
  pub counts : client.Server → String → Bool
  pub counts-rpush :
      (key text other : String) (s : client.Server)
      → (key == other) ≡ false
      → counts (client.rpush key text s).1 other ≡ counts s other
  pub counts-lpop :
      (key other : String) (s : client.Server)
      → (key == other) ≡ false
      → counts (client.lpop key s).1 other ≡ counts s other
  pub counts-del :
      (key other : String) (s : client.Server)
      → (key == other) ≡ false
      → counts (client.del key s).1 other ≡ counts s other
  pub counts-set_zero :
      (key other : String) (s : client.Server)
      → counts (client.set_zero key s).1 other ≡ (if key == other then true else counts s other)
  pub counts-incr :
      (key other : String) (s : client.Server)
      → counts s other ≡ true
      → counts (client.incr key s).1 other ≡ true
  pub number-rpush :
      (key text other : String) (s : client.Server)
      → (key == other) ≡ false
      → number (client.rpush key text s).1 other ≡ number s other
  pub number-lpop :
      (key other : String) (s : client.Server)
      → (key == other) ≡ false
      → number (client.lpop key s).1 other ≡ number s other
  pub number-del :
      (key other : String) (s : client.Server)
      → (key == other) ≡ false
      → number (client.del key s).1 other ≡ number s other
  pub number-set_zero :
      (key other : String) (s : client.Server)
      → number (client.set_zero key s).1 other ≡ (if key == other then some 0 else number s other)
  pub number-incr :
      (key : String) (s : client.Server)
      → counts s key ≡ true
      → suc (or_zero 0 (number s key)) < 2 ^ 63
      → number (client.incr key s).1 key ≡ some (suc (or_zero 0 (number s key)))
  pub number-incr_other :
      (key other : String) (s : client.Server)
      → (key == other) ≡ false
      → number (client.incr key s).1 other ≡ number s other
  pub get-number :
      (key : String) (s : client.Server)
      → counts s key ≡ true
      → (client.get key s >>= λ text. client.uint64 text) ≡ or_missing (number s key)

-- The keys of two counters are equal only if their lists' keys are.
counter_key-eq : (key other : String) → (counter_key key == counter_key other) ≡ (key == other)
counter_key-eq key other = elim (Bool-cases (key == other)) [
  | inl same ↦ rw (same, (eq_iff key other).0 same) (eq_refl (counter_key other))
  | inr differs ↦ rw differs (
      eq_ne (counter_key key) (counter_key other) (λ same.
        ground (arith, append_cancel_right key other "__counter__" same, eq_iff key other)))
]

module _ (client : Client) (l : Lists client) (n : Numbers client l) (capacity : ℕ) where
  number-trim :
      (key other : String) (s : client.Server)
      → l.is_list s key ≡ true
      → (key == other) ≡ false
      → (n.number (trim client capacity key s).1 other ≡ n.number s other)
        × (n.counts (trim client capacity key s).1 other ≡ n.counts s other)
  unfolding trim
  number-trim key other s is differs = elim (Bool-cases (ltb capacity (length (l.items s key)))) [
    | inl over ↦
        rw (trim, l.llen-items key s is, over)
          (n.number-lpop key other s differs, n.counts-lpop key other s differs)
    | inr room ↦ rw (trim, l.llen-items key s is, room) (refl, refl)
  ]

  -- A list's key is not a counter's.
  plain-ne :
      (key other : String)
      → has_suffix key "__counter__" ≡ false
      → (key == counter_key other) ≡ false
  plain-ne key other plain = ground (
    arith,
    name-ne-counter key other plain,
    eq_iff key (counter_key other),
    eq_iff (counter_key other) key,
  )

  -- A push adds one to the counter of its list, and leaves the others; all keys of counters still hold numbers.
  pub number-push :
      (key text other : String) (s : client.Server)
      → has_suffix key "__counter__" ≡ false
      → l.is_list s key ≡ true
      → length (l.items s key) ≤ capacity
      → ((name : String) → n.counts s (counter_key name) ≡ true)
      → ((suc (or_zero 0 (n.number s (counter_key other))) < 2 ^ 63)
          → n.number (push client capacity key (ok text) s).1 (counter_key other) ≡ (
              if key == other
              then some (suc (or_zero 0 (n.number s (counter_key other))))
              else n.number s (counter_key other)))
        × (n.counts (push client capacity key (ok text) s).1 (counter_key other) ≡ true)
  number-push key text other s plain is bound counts =
      let (steps, _, _) = push_steps client l capacity key text s is bound in
      let s1 = (client.rpush key text s).1 in
      let s2 = (trim client capacity key s1).1 in
      let still : l.is_list s1 key ≡ true = l.is_list-rpush key text key s ∙ is in
      let before : (name : String)
          → n.number s2 (counter_key name) ≡ n.number s (counter_key name) =
        λ name.
          (number-trim key (counter_key name) s1 still (plain-ne key name plain)).0
          ∙ n.number-rpush key text (counter_key name) s (plain-ne key name plain) in
      let counted : (name : String) → n.counts s2 (counter_key name) ≡ true = λ name.
        (number-trim key (counter_key name) s1 still (plain-ne key name plain)).1
        ∙ n.counts-rpush key text (counter_key name) s (plain-ne key name plain)
        ∙ counts name in
      rw steps (
        (λ small. elim (Bool-cases (key == other)) [
          | inl same ↦ ground (
            arith,
            n.number-incr (counter_key key) s2 (counted key),
            before other,
            same,
            ap counter_key ((eq_iff key other).0 same),
          )
          | inr apart ↦ rw apart (
              n.number-incr_other (counter_key key) (counter_key other) s2
                (counter_key-eq key other ∙ apart)
              ∙ before other)
        ]),
        n.counts-incr (counter_key key) (counter_key other) s2 (counted other),
      )

  pub number-remove :
      (key other : String) (s : client.Server)
      → has_suffix key "__counter__" ≡ false
      → n.counts s (counter_key other) ≡ true
      → (n.number (remove client capacity key s).1 (counter_key other)
          ≡ (if key == other then some 0 else n.number s (counter_key other)))
        × (n.counts (remove client capacity key s).1 (counter_key other) ≡ true)
  unfolding remove
  number-remove key other s plain counts =
      let s1 = (client.del key s).1 in
      let apart = plain-ne key other plain in
      rw
        (and_then_of_ok client l capacity (client.del key s) (client.set_zero (counter_key key))
          (l.del-ok key s))
        (
          ground (
            arith,
            n.number-set_zero (counter_key key) (counter_key other) s1,
            counter_key-eq key other,
            n.number-del key (counter_key other) s apart,
          ),
          ground (
            arith,
            n.counts-set_zero (counter_key key) (counter_key other) s1,
            n.counts-del key (counter_key other) s apart,
          ),
        )
