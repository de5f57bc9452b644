-- ===== src/Grpc/Kvstore/Crossing.antt =====
-- Two calls of Put of mockgo-grpc/kvstore/kvstore.go, at two servers at the same time: their calls of StoreVal
-- reach the servers of the cluster in any order.
use mockgo_server.Prelude.{
  true, false, Bool, ◌||◌, ℕ, String, ◌≡◌, ◌∙◌, sym, eqb, arith, List, [], ◌∷◌, ok, Bool-cases, ◌⊎◌,
  inl, inr, Option, or_zero, lookup, lookup-nil,
}
use mathlib.Core.Path.{subst}
use mockgo_server.Kvstore.{Value, null, Stores, get, inmemory_storage}
use mockgo_server.Kvstore.Handlers.{Json}
use mockgo_server.Kvstore.Written.{Written, note_put, put_all, IsEncoded, get-put_all}
use mockgo_server.Grpc.Kvstore.Calls.{
  call_once, run_calls, AllSucceed, Finds, Finds-own, Finds-theirs, Finds-cong,
}
use mockgo_server.Grpc.Kvstore.{Peers}
use mockgo_server.Grpc.Kvstore.Calls.{is_client, Delivers}

-- The calls of two Puts, each over the clients that it has left, in the order in which they are made.
pub data Crossing (c1 c2 : Written) : List ℕ → List ℕ → List (ℕ × Written) → Type 0 where
  both_done : Crossing c1 c2 [] [] []
  first :
      {i : ℕ} {is js : List ℕ} {calls : List (ℕ × Written)}
      → Crossing c1 c2 is js calls
      → Crossing c1 c2 (i ∷ is) js ((i, c1) ∷ calls)
  second :
      {j : ℕ} {is js : List ℕ} {calls : List (ℕ × Written)}
      → Crossing c1 c2 is js calls
      → Crossing c1 c2 is (j ∷ js) ((j, c2) ∷ calls)

or-swap : (x y z : Bool) → (x || (y || z)) ≡ ((y || x) || z)
or-swap false y z = ground arith
or-swap true y z = ground arith

-- What a storage in memory holds.
held_by : Stores → String → String → Option Value
held_by s store key = lookup key (or_zero [] (lookup store s))

get-held_by :
    (s : Stores) (store key : String)
    → (get store key s).0 ≡ ok (or_zero null (held_by s store key))
unfolding get held_by lookup
get-held_by s store key = ground (arith, lookup-nil {V = Value} key)

module _ (peers : Peers) (json : Json) (d : Delivers peers json) (encode : Value → String)
    (k : ℕ) where
  module _ (c1 c2 : Written) (held : String → String → Option Value) where
    -- What the server finds, by which of the two writes have reached it.
    unfoldable pub Phase : Bool → Bool → peers.Cluster → Type 0
    Phase false false s = Finds peers json d encode k held s
    Phase true false s = Finds peers json d encode k (note_put held c1) s
    Phase false true s = Finds peers json d encode k (note_put held c2) s
    Phase true true s =
        Finds peers json d encode k (note_put (note_put held c1) c2) s
        ⊎ Finds peers json d encode k (note_put (note_put held c2) c1) s

    Phase-first :
        (b1 b2 : Bool) (i : ℕ) (s : peers.Cluster)
        → IsEncoded json encode c1.val
        → (call_once peers encode (i, c1) s).0 ≡ ok tt
        → eqb i k ≡ true
        → Phase b1 b2 s
        → Phase true b2 (call_once peers encode (i, c1) s).1
    unfolding Phase
    Phase-first false false i s encoded done own h =
        Finds-own peers json d encode k held i c1 s encoded done own h
    Phase-first true false i s encoded done own h =
        Finds-cong peers json d encode k _ (note_put held c1) _ (λ store key. ground arith)
          (Finds-own peers json d encode k (note_put held c1) i c1 s encoded done own h)
    Phase-first false true i s encoded done own h =
        inr (Finds-own peers json d encode k (note_put held c2) i c1 s encoded done own h)
    Phase-first true true i s encoded done own (inl h) = inr (
        Finds-cong peers json d encode k _ (note_put (note_put held c2) c1) _
          (λ store key. ground arith)
          (Finds-own peers json d encode k (note_put (note_put held c1) c2) i c1 s encoded done own
            h))
    Phase-first true true i s encoded done own (inr h) = inr (
        Finds-cong peers json d encode k _ (note_put (note_put held c2) c1) _
          (λ store key. ground arith)
          (Finds-own peers json d encode k (note_put (note_put held c2) c1) i c1 s encoded done own
            h))

    Phase-theirs :
        (b1 b2 : Bool) (i : ℕ) (c : Written) (s : peers.Cluster)
        → IsEncoded json encode c.val
        → (call_once peers encode (i, c) s).0 ≡ ok tt
        → eqb i k ≡ false
        → Phase b1 b2 s
        → Phase b1 b2 (call_once peers encode (i, c) s).1
    unfolding Phase
    Phase-theirs false false i c s encoded done theirs h =
        Finds-theirs peers json d encode k _ i c s encoded done theirs h
    Phase-theirs true false i c s encoded done theirs h =
        Finds-theirs peers json d encode k _ i c s encoded done theirs h
    Phase-theirs false true i c s encoded done theirs h =
        Finds-theirs peers json d encode k _ i c s encoded done theirs h
    Phase-theirs true true i c s encoded done theirs (inl h) =
        inl (Finds-theirs peers json d encode k _ i c s encoded done theirs h)
    Phase-theirs true true i c s encoded done theirs (inr h) =
        inr (Finds-theirs peers json d encode k _ i c s encoded done theirs h)

  Phase-swap :
      (c1 c2 : Written) (held : String → String → Option Value) (b1 b2 : Bool) (s : peers.Cluster)
      → Phase c1 c2 held b1 b2 s
      → Phase c2 c1 held b2 b1 s
  unfolding Phase
  Phase-swap c1 c2 held false false s h = h
  Phase-swap c1 c2 held true false s h = h
  Phase-swap c1 c2 held false true s h = h
  Phase-swap c1 c2 held true true s (inl h) = inr h
  Phase-swap c1 c2 held true true s (inr h) = inl h

  -- A call of the first write.
  Phase-call :
      (c1 c2 : Written) (held : String → String → Option Value) (b1 b2 : Bool) (i : ℕ)
      (s : peers.Cluster)
      → IsEncoded json encode c1.val
      → (call_once peers encode (i, c1) s).0 ≡ ok tt
      → Phase c1 c2 held b1 b2 s
      → Phase c1 c2 held (eqb i k || b1) b2 (call_once peers encode (i, c1) s).1
  Phase-call c1 c2 held b1 b2 i s encoded done h = elim (Bool-cases (eqb i k)) [
    | inl own ↦ rw own (Phase-first c1 c2 held b1 b2 i s encoded done own h)
    | inr theirs ↦ rw theirs (Phase-theirs c1 c2 held b1 b2 i c1 s encoded done theirs h)
  ]

  pub Phase-calls :
      (c1 c2 : Written) (held : String → String → Option Value) {is js : List ℕ}
      {calls : List (ℕ × Written)} (b1 b2 : Bool) (s : peers.Cluster)
      → Crossing c1 c2 is js calls
      → IsEncoded json encode c1.val
      → IsEncoded json encode c2.val
      → AllSucceed peers encode calls s
      → Phase c1 c2 held b1 b2 s
      → Phase c1 c2 held
          (is_client k is || b1)
          (is_client k js || b2)
          (run_calls peers encode calls s)
  Phase-calls c1 c2 held b1 b2 s both_done e1 e2 done h = h
  Phase-calls c1 c2 held b1 b2 s (first {i} {is} {js} {calls} more) e1 e2 (done, rest) h =
      subst
        (λ b.
          Phase c1 c2 held b (is_client k js || b2)
            (run_calls peers encode calls (call_once peers encode (i, c1) s).1))
        (or-swap (is_client k is) (eqb i k) b1)
        (Phase-calls c1 c2 held (eqb i k || b1) b2 (call_once peers encode (i, c1) s).1 more e1 e2
          rest (Phase-call c1 c2 held b1 b2 i s e1 done h))
  Phase-calls c1 c2 held b1 b2 s (second {j} {is} {js} {calls} more) e1 e2 (done, rest) h =
      subst
        (λ b.
          Phase c1 c2 held (is_client k is || b1) b
            (run_calls peers encode calls (call_once peers encode (j, c2) s).1))
        (or-swap (is_client k js) (eqb j k) b2)
        (Phase-calls c1 c2 held b1 (eqb j k || b2) (call_once peers encode (j, c2) s).1 more e1 e2
          rest
          (Phase-swap c2 c1 held (eqb j k || b2) b1 _
            (Phase-call c2 c1 held b2 b1 j s e2 done (Phase-swap c1 c2 held b1 b2 s h))))

  -- The calls of two Puts, at two servers and each over its own clients, are made in any order, and all succeed. Then
  -- a server that is among the clients of both returns for every store and key what its storage in memory returns
  -- after the two Puts, one after the other, in one order or in the other. It is assumed that a call over gRPC that
  -- succeeds runs StoreVal on the store of its peer and on no other, and that JSON gives the two values back as they
  -- were.
  pub run_calls-Crossing :
      (c1 c2 : Written) {is js : List ℕ} {calls : List (ℕ × Written)} (s : peers.Cluster)
      → Crossing c1 c2 is js calls
      → IsEncoded json encode c1.val
      → IsEncoded json encode c2.val
      → AllSucceed peers encode calls s
      → is_client k is ≡ true
      → is_client k js ≡ true
      → let after = d.stores (run_calls peers encode calls s) k in
        ((store key : String)
          → (get store key after).0
            ≡ (get store key (put_all inmemory_storage (c1 ∷ c2 ∷ []) (d.stores s k))).0)
        ⊎ ((store key : String)
            → (get store key after).0
              ≡ (get store key (put_all inmemory_storage (c2 ∷ c1 ∷ []) (d.stores s k))).0)
  unfolding Phase Finds
  run_calls-Crossing c1 c2 {is} {js} {calls} s crossing e1 e2 done in_first in_second =
      let held = held_by (d.stores s k) in
      let same = get-held_by (d.stores s k) in
      let reached = Phase-calls c1 c2 held false false s crossing e1 e2 done same in
      elim (rw (in_first, in_second) at reached) [
        | inl h ↦ inl (λ store key.
            h store key ∙ sym (get-put_all (c1 ∷ c2 ∷ []) held (d.stores s k) same store key))
        | inr h ↦ inr (λ store key.
            h store key ∙ sym (get-put_all (c2 ∷ c1 ∷ []) held (d.stores s k) same store key))
      ]
