-- ===== src/Grpc/Kvstore/Calls.antt =====
-- The calls of StoreVal that Put of mockgo-grpc/kvstore/kvstore.go makes, and what a server finds after one.
use mockgo_server.Prelude.{
  true, false, ℕ, String, ◌≡◌, ◌∙◌, sym, ap, eqb, eqb_iff, arith, List, [], ◌∷◌, Result, ok, ◌==◌,
  ◌&&◌, ◌||◌, Bool, if◌then◌else◌, Bool-cases, inl, inr, Option, or_zero, refl,
}
use mathlib.Core.Path.{subst}
use mockgo_server.Kvstore.{Value, null, Stores, get}
use mockgo_server.Kvstore.Laws.{get-put}
use mockgo_server.Kvstore.Handlers.{Json}
use mockgo_server.Kvstore.Written.{Written, note_put, IsEncoded}
use mockgo_server.Grpc.Attempt.{call_all, after_call_ok}
use mockgo_server.Grpc.Kvstore.{put_decoded, Peers, handle_store_val, put_encoded, grpc_put}

-- The servers behind the calls: a call that succeeds ran StoreVal on the peer's store, and on no other.
-- A call that fails may or may not have reached its peer.
pub record Delivers (peers : Peers) (json : Json) : Type 0 where
  pub stores : peers.Cluster → ℕ → Stores
  pub delivered :
      (i j : ℕ) (store key text : String) (s : peers.Cluster)
      → (peers.store_val i store key text s).0 ≡ ok tt
      → stores (peers.store_val i store key text s).1 j
        ≡ (if eqb i j then (handle_store_val json store key text (stores s i)).1 else stores s j)

-- The server with the number is among the clients.
abbrev pub is_client : ℕ → List ℕ → Bool
is_client j [] = false
is_client j (i ∷ is) = eqb i j || is_client j is

module _ (peers : Peers) (encode : Value → String) where
  -- A call of StoreVal, as Put makes it.
  abbrev pub call_once : ℕ × Written → peers.Cluster → Result (Unit {0}) × peers.Cluster
  call_once (i, c) s = peers.store_val i c.store c.key (encode c.val) s

  -- The cluster after calls.
  abbrev pub run_calls : List (ℕ × Written) → peers.Cluster → peers.Cluster
  run_calls [] s = s
  run_calls (call ∷ calls) s = run_calls calls (call_once call s).1

  -- Each of them succeeds.
  abbrev pub AllSucceed : List (ℕ × Written) → peers.Cluster → Type 0
  AllSucceed [] s = Unit
  AllSucceed (call ∷ calls) s =
      ((call_once call s).0 ≡ ok tt) × AllSucceed calls (call_once call s).1

module _ (peers : Peers) (json : Json) (d : Delivers peers json) (encode : Value → String)
    (k : ℕ) where
  -- What the server finds.
  unfoldable pub Finds : (String → String → Option Value) → peers.Cluster → Type 0
  Finds held s =
      (store key : String) → (get store key (d.stores s k)).0 ≡ ok (or_zero null (held store key))

  get-handle_store_val :
      (c : Written) (s : Stores) (store key : String)
      → IsEncoded json encode c.val
      → (get store key (handle_store_val json c.store c.key (encode c.val) s).1).0
        ≡ (if c.store == store && c.key == key then ok c.val else (get store key s).0)
  unfolding handle_store_val put_decoded
  get-handle_store_val c s store key (same, back) =
      rw back (get-put c.store c.key store key c.val s)

  -- A call changes the values of its server, and of no other.
  Finds-call_once :
      (held : String → String → Option Value) (i : ℕ) (c : Written) (s : peers.Cluster)
      → IsEncoded json encode c.val
      → (call_once peers encode (i, c) s).0 ≡ ok tt
      → Finds held s
      → Finds (if eqb i k then note_put held c else held) (call_once peers encode (i, c) s).1
  unfolding Finds
  Finds-call_once held i c s encoded done finds = elim (Bool-cases (eqb i k)) [
    | inl own ↦ rw own (λ store key.
        rw (d.delivered i k c.store c.key (encode c.val) s done, own)
          (ground (
            arith,
            get-handle_store_val c (d.stores s i) store key encoded,
            ap (λ n. (get store key (d.stores s n)).0) ((eqb_iff i k).0 own),
            finds store key,
          )))
    | inr theirs ↦ rw theirs (λ store key.
        rw (d.delivered i k c.store c.key (encode c.val) s done, theirs) (finds store key))
  ]

  pub Finds-own :
      (held : String → String → Option Value) (i : ℕ) (c : Written) (s : peers.Cluster)
      → IsEncoded json encode c.val
      → (call_once peers encode (i, c) s).0 ≡ ok tt
      → eqb i k ≡ true
      → Finds held s
      → Finds (note_put held c) (call_once peers encode (i, c) s).1
  Finds-own held i c s encoded done own finds =
      subst (λ b. Finds (if b then note_put held c else held) (call_once peers encode (i, c) s).1)
        own (Finds-call_once held i c s encoded done finds)

  pub Finds-theirs :
      (held : String → String → Option Value) (i : ℕ) (c : Written) (s : peers.Cluster)
      → IsEncoded json encode c.val
      → (call_once peers encode (i, c) s).0 ≡ ok tt
      → eqb i k ≡ false
      → Finds held s
      → Finds held (call_once peers encode (i, c) s).1
  Finds-theirs held i c s encoded done theirs finds =
      subst (λ b. Finds (if b then note_put held c else held) (call_once peers encode (i, c) s).1)
        theirs (Finds-call_once held i c s encoded done finds)

  pub Finds-cong :
      (held held' : String → String → Option Value) (s : peers.Cluster)
      → ((store key : String) → held store key ≡ held' store key)
      → Finds held s
      → Finds held' s
  unfolding Finds
  Finds-cong held held' s same finds store key =
      finds store key ∙ ap (λ v. ok (or_zero null v)) (same store key)

-- The calls of one Put.
abbrev pub calls_of : List ℕ → Written → List (ℕ × Written)
calls_of [] c = []
calls_of (i ∷ is) c = (i, c) ∷ calls_of is c

-- A Put that succeeds makes its calls, and all of them succeed.
pub grpc_put-run_calls :
    (peers : Peers) (json : Json) (encode : Value → String) (clients : List ℕ) (c : Written)
    (s : peers.Cluster)
    → IsEncoded json encode c.val
    → (grpc_put peers json clients c.store c.key c.val s).0 ≡ ok tt
    → ((grpc_put peers json clients c.store c.key c.val s).1
        ≡ run_calls peers encode (calls_of clients c) s)
      × AllSucceed peers encode (calls_of clients c) s
unfolding grpc_put put_encoded call_all
grpc_put-run_calls peers json encode clients c s (same, back) done =
    rw (same, put_encoded) (go clients s (rw (same, grpc_put, put_encoded) at done))
  where
    go :
        (clients : List ℕ) (s : peers.Cluster)
        → (call_all (λ i s'. peers.store_val i c.store c.key (encode c.val) s') clients s).0 ≡ ok tt
        → ((call_all (λ i s'. peers.store_val i c.store c.key (encode c.val) s') clients s).1
            ≡ run_calls peers encode (calls_of clients c) s)
          × AllSucceed peers encode (calls_of clients c) s
    go [] s done = (refl, tt)
    go (i ∷ is) s done =
        let call =
          λ (i : ℕ) (s' : peers.Cluster). peers.store_val i c.store c.key (encode c.val) s' in
        let (called, same) = after_call_ok (call i s) (λ s'. call_all call is s') done in
        let (left, succeed) = go is (call i s).1 (ap (λ x. x.0) (sym same) ∙ done) in
        (ap (λ x. x.1) same ∙ left, (called, succeed))
