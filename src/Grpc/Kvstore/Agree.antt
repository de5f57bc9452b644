-- ===== src/Grpc/Kvstore/Agree.antt =====
-- The servers of mockgo-grpc/kvstore/kvstore.go against one storage in memory.
use mockgo_server.Prelude.{
  true, false, sym, ℕ, String, ◌≡◌, ◌∙◌, refl, List, [], ◌∷◌, All, ok, Option, none, lookup,
}
use mockgo_server.Kvstore.{Value, new_inmemory_storage, inmemory_storage, get}
use mockgo_server.Kvstore.Handlers.{Json}
use mockgo_server.Kvstore.Written.{Written, note_put, note_puts, put_all, IsEncoded, get-put_all}
use mockgo_server.Grpc.Kvstore.{Peers, grpc_put}
use mockgo_server.Grpc.Kvstore.Calls.{Delivers, is_client, Finds, calls_of, grpc_put-run_calls}
use mockgo_server.Grpc.Kvstore.Crossing.{Crossing, both_done, first, Phase, Phase-calls}

-- The writes without their clients.
abbrev pub writes : List (List ℕ × Written) → List Written
writes [] = []
writes ((clients, c) ∷ ps) = c ∷ writes ps

module _ (peers : Peers) (json : Json) where
  -- The cluster after calls of Put, each from a server with its own clients.
  abbrev pub grpc_puts : List (List ℕ × Written) → peers.Cluster → peers.Cluster
  grpc_puts [] s = s
  grpc_puts ((clients, c) ∷ ps) s =
      grpc_puts ps (grpc_put peers json clients c.store c.key c.val s).1

  -- Each of them succeeds.
  abbrev pub Succeed : List (List ℕ × Written) → peers.Cluster → Type 0
  Succeed [] s = Unit
  Succeed ((clients, c) ∷ ps) s =
      ((grpc_put peers json clients c.store c.key c.val s).0 ≡ ok tt)
      × Succeed ps (grpc_put peers json clients c.store c.key c.val s).1

module _ (peers : Peers) (json : Json) (d : Delivers peers json) (encode : Value → String)
    (j : ℕ) where
  -- The calls of one Put are those of two Puts of which the other makes none.
  calls_of-Crossing :
      (c : Written) (clients : List ℕ) → Crossing c c clients [] (calls_of clients c)
  calls_of-Crossing c [] = both_done
  calls_of-Crossing c (i ∷ is) = first (calls_of-Crossing c is)

  Finds-grpc_put :
      (held : String → String → Option Value) (clients : List ℕ) (c : Written) (s : peers.Cluster)
      → IsEncoded json encode c.val
      → is_client j clients ≡ true
      → (grpc_put peers json clients c.store c.key c.val s).0 ≡ ok tt
      → Finds peers json d encode j held s
      → Finds peers json d encode j
          (note_put held c)
          (grpc_put peers json clients c.store c.key c.val s).1
  unfolding Phase
  Finds-grpc_put held clients c s encoded client done finds =
      let (same, succeed) = grpc_put-run_calls peers json encode clients c s encoded done in
      let reached =
        Phase-calls peers json d encode j c c held false false s (calls_of-Crossing c clients)
          encoded encoded succeed finds in
      rw same (rw client at reached)

  Finds-grpc_puts :
      (ps : List (List ℕ × Written)) (held : String → String → Option Value) (s : peers.Cluster)
      → All (λ p. IsEncoded json encode p.1.val × (is_client j p.0 ≡ true)) ps
      → Succeed peers json ps s
      → Finds peers json d encode j held s
      → Finds peers json d encode j (note_puts held (writes ps)) (grpc_puts peers json ps s)
  Finds-grpc_puts [] held s encoded done finds = finds
  Finds-grpc_puts ((clients, c) ∷ ps) held s ((encoded, client), more) (done, rest) finds =
      Finds-grpc_puts ps (note_put held c) _ more rest
        (Finds-grpc_put held clients c s encoded client done finds)

  -- A cluster whose servers hold nothing answers calls of Put, one after the other, each at some server, over the
  -- clients of that server, and each with success. Then a server that was among the clients of each of them returns
  -- for every store and key what one storage in memory returns after the same calls. It is assumed that a call over
  -- gRPC that succeeds runs StoreVal on the store of its peer and on no other, and that JSON gives the values back as
  -- they were.
  pub grpc_puts-put_all :
      (ps : List (List ℕ × Written)) (s : peers.Cluster) (store key : String)
      → d.stores s j ≡ new_inmemory_storage
      → All (λ p. IsEncoded json encode p.1.val × (is_client j p.0 ≡ true)) ps
      → Succeed peers json ps s
      → (get store key (d.stores (grpc_puts peers json ps s) j)).0
        ≡ (get store key (put_all inmemory_storage (writes ps) new_inmemory_storage)).0
  unfolding Finds get lookup
  grpc_puts-put_all ps s store key empty encoded done =
      Finds-grpc_puts ps (λ store' key'. none) s encoded done (λ store' key'. rw empty refl) store
        key
      ∙ sym (
          get-put_all (writes ps) (λ store' key'. none) new_inmemory_storage (λ store' key'. refl)
            store key)
