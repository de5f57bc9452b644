-- ===== src/Grpc/Merge.antt =====
-- mockgo-grpc/matchstore/matchstore.go: GetMatches asks every server of the cluster and merges the
-- answers, and the counts are added up. `A` is the type of the matches that a client's answer is mapped
-- to.
pub mod Complete
use mockgo_server.Prelude.{
  ℕ, zero, suc, ◌+◌, String, List, [], ◌∷◌, ◌++◌, Result, ok, err, ◌>>=◌, length, take, drop,
}
use mockgo_server.Grpc.Attempt.{Attempt, returned, if_returned}
use mockgo_server.Matches.Inmemory.{uint64}

module _ {A : Type 0} where
  -- The inner loop of a round: of every answer the element at the position, if there is one.
  unfoldable pub heads : ℕ → List (List A) → List A
  heads pos [] = []
  heads pos (l ∷ ls) = take 1 (drop pos l) ++ heads pos ls

  -- The rounds, up to the first one in which no answer has an element left.
  unfoldable pub merge : ℕ → ℕ → List (List A) → List A
  unfolding heads
  merge zero pos ls = []
  merge (suc fuel) pos ls =
      let rest = merge fuel (suc pos) ls in
      elim (heads pos ls) [ [] ↦ [] | x ∷ xs ↦ (x ∷ xs) ++ rest ]

  abbrev pub concat : List (List A) → List A
  concat [] = []
  concat (l ∷ ls) = l ++ concat ls

  -- The loop over the clients, which the first error ends.
  unfoldable pub fetch_all : (ℕ → Attempt A) → List ℕ → Attempt (List A)
  fetch_all fetch [] = returned []
  fetch_all fetch (i ∷ is) =
      if_returned (fetch i) λ a. if_returned (fetch_all fetch is) λ more. returned (a ∷ more)

-- GetMatches, where `fetch i` is the answer of the client i. A round with no match ends the loop, so that
-- there is one round more than there are matches, at most.
unfoldable pub grpc_get_matches : {A : Type 0} → (ℕ → Attempt (List A)) → List ℕ → Attempt (List A)
unfolding fetch_all merge
grpc_get_matches fetch clients =
    if_returned (fetch_all fetch clients) λ ls. returned (merge (suc (length (concat ls))) 0 ls)

-- GetMatchesCount and GetMismatchesCount: the loop with the sum so far
unfoldable pub add_counts : ℕ → (ℕ → Result ℕ) → List ℕ → Result ℕ
add_counts sum fetch [] = ok sum
add_counts sum fetch (i ∷ is) = fetch i >>= λ n. add_counts (uint64 (sum + n)) fetch is

abbrev pub grpc_get_count : (ℕ → Result ℕ) → List ℕ → Result ℕ
grpc_get_count fetch clients = add_counts 0 fetch clients

-- GetMismatches: the answers one after the other
unfoldable pub grpc_get_mismatches :
    {A : Type 0} → (ℕ → Attempt (List A)) → List ℕ → Attempt (List A)
unfolding fetch_all
grpc_get_mismatches fetch clients = if_returned (fetch_all fetch clients) λ ls. returned (concat ls)
