-- ===== src/Grpc/Tests.antt =====
-- The theorems on mockgo-grpc over a cluster whose calls always arrive.
use mockgo_server.Kvstore.Written.{Written, put_all}
use mockgo_server.Grpc.Kvstore.Agree.{grpc_puts, writes, grpc_puts-put_all}
use mockgo_server.Grpc.Kvstore.Calls.{run_calls}
use mockgo_server.Grpc.Kvstore.Crossing.{Crossing, both_done, first, second, run_calls-Crossing}
use mockgo_server.Prelude.{
  ◌⊎◌, lookup, insert, List, ℕ, String, ◌≡◌, refl, eqb, [], ◌∷◌, Result, ok, if◌then◌else◌,
}
use mockgo_server.Kvstore.{Value, put, new_inmemory_storage, inmemory_storage, num, Stores, get}
use mockgo_server.Kvstore.Handlers.{Json}
use mockgo_server.Grpc.Kvstore.{handle_store_val, Peers, grpc_put}
use mockgo_server.Grpc.Kvstore.Calls.{Delivers}

abbrev text_of : Value → String
text_of (num text) = text
text_of v = "null"

abbrev json : Json
json = record {
  unmarshal = λ text. ok (num text);
  marshal = λ v. ok (text_of v);
  marshal_map = λ m. ok "{}";
}

abbrev call : ℕ → String → String → String → (ℕ → Stores) → Result (Unit {0}) × (ℕ → Stores)
call i store key text s =
    let (done, own) = handle_store_val json store key text (s i) in
    (done, λ j. if eqb i j then own else s j)

abbrev peers : Peers
peers = record { Cluster = ℕ → Stores; store_val = call }

abbrev delivers : Delivers peers json
delivers = record { stores = λ s. s; delivered = λ i j store key text s done. refl }

abbrev two_empty : ℕ → Stores
two_empty i = []

-- Two writes, from two servers that have their clients in another order.
abbrev two_writes : List (List ℕ × Written)
two_writes =
    (0 ∷ 1 ∷ [], record { store = "s"; key = "k"; val = num "1" })
    ∷ (1 ∷ 0 ∷ [], record { store = "s"; key = "other"; val = num "1" })
    ∷ []

grpc_puts-put_all_example :
    (get "s" "k" (grpc_puts peers json two_writes two_empty 1)).0
    ≡ (get "s" "k" (put_all inmemory_storage (writes two_writes) new_inmemory_storage)).0
unfolding grpc_put handle_store_val put lookup insert
grpc_puts-put_all_example =
    grpc_puts-put_all peers json delivers text_of 1 two_writes two_empty "s" "k" refl
      (((refl, refl), refl), (((refl, refl), refl), tt)) (refl, (refl, tt))

abbrev one : Written
one = record { store = "s"; key = "k"; val = num "1" }

abbrev two : Written
two = record { store = "s"; key = "k"; val = num "2" }

-- Two Puts of the same key, each over the clients 0 and 1, whose calls cross.
abbrev crossed : List (ℕ × Written)
crossed = (0, one) ∷ (1, two) ∷ (0, two) ∷ (1, one) ∷ []

crossed-Crossing : Crossing one two (0 ∷ 1 ∷ []) (1 ∷ 0 ∷ []) crossed
crossed-Crossing = first (second (second (first both_done)))

run_calls-Crossing_example :
    ((store key : String)
      → (get store key (run_calls peers text_of crossed two_empty 1)).0
        ≡ (get store key (put_all inmemory_storage (one ∷ two ∷ []) (two_empty 1))).0)
    ⊎ ((store key : String)
        → (get store key (run_calls peers text_of crossed two_empty 1)).0
          ≡ (get store key (put_all inmemory_storage (two ∷ one ∷ []) (two_empty 1))).0)
unfolding handle_store_val put lookup insert
run_calls-Crossing_example =
    run_calls-Crossing peers json delivers text_of 1 one two two_empty crossed-Crossing (refl, refl)
      (refl, refl) (refl, (refl, (refl, (refl, tt)))) refl refl

-- The servers keep different values.
crossed_demo :
    ((get "s" "k" (run_calls peers text_of crossed two_empty 0)).0 ≡ ok (num "2"))
    × ((get "s" "k" (run_calls peers text_of crossed two_empty 1)).0 ≡ ok (num "1"))
unfolding handle_store_val put lookup insert get
crossed_demo = (refl, refl)
