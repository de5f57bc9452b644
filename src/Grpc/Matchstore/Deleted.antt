-- ===== src/Grpc/Matchstore/Deleted.antt =====
-- What DeleteMatches of mockgo-grpc/matchstore/matchstore.go leaves, over servers that keep their requests
-- in memory.
use mathlib.Core.List.Perm
use mockgo_server.Prelude.{
  ℕ, String, ◌≡◌, refl, ap, ◌∙◌, ◌⊎◌, inl, inr, arith, true, List, [], ◌∷◌, All, All-mono, ok, eqb,
  eqb_iff, Bool-cases,
}
use mockgo_server.Matches.{Mismatch}
use mockgo_server.Matches.Inmemory.{inmemory_matchstore, get_matches, get_matches_count}
use mockgo_server.Matches.Inmemory.Deleted.{
  get_matches-delete_matches, get_matches_count-delete_matches,
}
use mockgo_server.Grpc.Attempt.{returned, call_all-All}
use mockgo_server.Grpc.Messages.{Timestamps}
use mockgo_server.Grpc.Merge.{concat}
use mockgo_server.Grpc.Matchstore.{
  MatchPeers, handle_remove_matches, cluster_delete_matches, cluster_get_matches,
  cluster_get_matches_count,
}
use mockgo_server.Grpc.Matchstore.Fetched.{Answers, all_held, cluster_get_matches_complete}
use mockgo_server.Grpc.Matchstore.Counted.{sum, cluster_get_matches_count-sum}

module _ (times : Timestamps) (kept : (t : ℕ) → times.as_time (times.stamp t) ≡ t)
    (peers : MatchPeers times) {M : Type 0}
    (d : Answers times peers (inmemory_matchstore M Mismatch)) (id : String) where
  -- The server holds no match for the endpoint, and counts none.
  Cleared : peers.Cluster → ℕ → Type 0
  Cleared s i =
      ((get_matches id (d.states s i)).0 ≡ ok []) × ((get_matches_count id (d.states s i)).0 ≡ ok 0)

  Cleared-call :
      (i j : ℕ) (s : peers.Cluster)
      → (peers.remove_matches i id s).0 ≡ ok tt
      → (eqb i j ≡ true) ⊎ Cleared s j
      → Cleared (peers.remove_matches i id s).1 j
  unfolding Cleared handle_remove_matches
  Cleared-call i j s done h = elim (Bool-cases (eqb i j)) [
    | inl same ↦
        rw (d.removed i j id s done, same)
          (
            get_matches-delete_matches id (d.states s i),
            get_matches_count-delete_matches id (d.states s i),
          )
    | inr other ↦ rw (d.removed i j id s done, other) (ground (arith, h))
  ]

  nothing_held :
      (s : peers.Cluster) (clients : List ℕ)
      → concat (all_held times kept peers (inmemory_matchstore M Mismatch) d id s (λ i. []) clients)
        ≡ []
  nothing_held s [] = refl
  nothing_held s (i ∷ is) = nothing_held s is

  sum_zero : (clients : List ℕ) → sum (λ i. 0) clients ≡ 0
  sum_zero [] = refl
  sum_zero (i ∷ is) = omega (arith, sum_zero is)

  -- If DeleteMatches succeeds, then GetMatches over the same clients returns no match for the endpoint, and
  -- GetMatchesCount returns 0. It is assumed that the servers have their matches in memory, that a call over gRPC that
  -- reads is answered with what its handler returns, that one of RemoveMatches that succeeds ran its handler on the
  -- store of its peer and on no other, and that the package for times gives a time back as it was.
  pub cluster_get_matches-cluster_delete_matches :
      (clients : List ℕ) (s : peers.Cluster)
      → (cluster_delete_matches times peers clients id s).0 ≡ ok tt
      → (cluster_get_matches times peers clients id
            (cluster_delete_matches times peers clients id s).1
          ≡ returned [])
        × (cluster_get_matches_count times peers clients id
              (cluster_delete_matches times peers clients id s).1
            ≡ ok 0)
  unfolding cluster_delete_matches Cleared
  cluster_get_matches-cluster_delete_matches clients s done =
      let s' = (cluster_delete_matches times peers clients id s).1 in
      let cleared : All (Cleared s') clients =
        call_all-All (λ i t. peers.remove_matches i id t) Cleared
          (λ i t called. Cleared-call i i t called (inl ((eqb_iff i i).1 refl)))
          (λ i j t called h. Cleared-call i j t called (inr h)) clients s done in
      let (found, same, all) =
        cluster_get_matches_complete times kept peers (inmemory_matchstore M Mismatch) d id s'
          (λ i. []) clients (All-mono clients (λ i c. (c.0, tt)) cleared) in
      (
        same ∙ ap returned (Perm.eq-nil (rw (nothing_held s' clients) at all)),
        cluster_get_matches_count-sum times peers (inmemory_matchstore M Mismatch) d id s' (λ i. 0)
              clients (All-mono clients (λ i c. c.1) cleared)
            ∙ ap ok (rw (sum_zero clients) refl),
      )
