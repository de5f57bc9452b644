-- ===== src/Grpc/Matchstore/Counted.antt =====
-- What GetMatchesCount of mockgo-grpc/matchstore/matchstore.go returns.
use mockgo_server.Prelude.{
  ℕ, ◌+◌, ◌^◌, ◌<◌, String, ◌≡◌, refl, ap, ◌∙◌, arith, List, [], ◌∷◌, All, All-mono, Result, ok,
}
use mockgo_server.Matches.{Mismatch, Matchstore}
use mockgo_server.Matches.Inmemory.{uint64}
use mockgo_server.Grpc.Messages.{Timestamps}
use mockgo_server.Grpc.Merge.{add_counts}
use mockgo_server.Grpc.Matchstore.{
  MatchPeers, handle_fetch_matches_count, cluster_get_matches_count,
}
use mockgo_server.Grpc.Matchstore.Fetched.{Answers}

abbrev pub sum : (ℕ → ℕ) → List ℕ → ℕ
sum counts [] = 0
sum counts (i ∷ is) = counts i + sum counts is

module _ (fetch : ℕ → Result ℕ) (counts : ℕ → ℕ) where
  add_counts_from :
      (so_far : ℕ) (clients : List ℕ)
      → so_far < 2 ^ 64
      → All (λ i. fetch i ≡ ok (counts i)) clients
      → add_counts so_far fetch clients ≡ ok (uint64 (so_far + sum counts clients))
  unfolding add_counts
  add_counts_from so_far [] small h = ap ok (omega arith)
  add_counts_from so_far (i ∷ is) small h =
      rw h.0
        (add_counts_from (uint64 (so_far + counts i)) is (omega arith) h.1 ∙ ap ok (omega arith))

module _ (times : Timestamps) (peers : MatchPeers times) {M : Type 0}
    (store : Matchstore M Mismatch) (d : Answers times peers store) (id : String)
    (s : peers.Cluster) (counts : ℕ → ℕ) where
  -- Where the servers answer, GetMatchesCount returns the sum of the counts of their stores modulo 2 ^ 64.
  pub cluster_get_matches_count-sum :
      (clients : List ℕ)
      → All (λ i. (store.get_matches_count id (d.states s i)).0 ≡ ok (counts i)) clients
      → cluster_get_matches_count times peers clients id s ≡ ok (uint64 (sum counts clients))
  unfolding cluster_get_matches_count handle_fetch_matches_count
  cluster_get_matches_count-sum clients h =
      add_counts_from (λ i. peers.fetch_matches_count i id s) counts 0 clients (omega arith)
        (All-mono clients (λ i found. d.counted i id s (counts i) (rw found refl)) h)
      ∙ ap ok (omega arith)
