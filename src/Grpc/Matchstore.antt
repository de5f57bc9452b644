-- ===== src/Grpc/Matchstore.antt =====
-- mockgo-grpc/matchstore/matchstore.go: every server keeps the requests that it recorded, in a store of
-- its own, and its API asks all servers of the cluster.
pub mod Fetched
pub mod Counted
pub mod Deleted
pub mod Pending
mod Tests
use mockgo_server.Prelude.{ℕ, String, Option, none, some, List, [], ◌∷◌, Result}
use mockgo_server.Matches.{Match, Mismatch, Matchstore}
use mockgo_server.Grpc.Attempt.{Attempt, returned, if_returned, call_of, or_crash, call_all}
use mockgo_server.Grpc.Messages.{
  Timestamps, ProtoMatch, ProtoMismatch, map_match, map_proto_match, map_mismatch,
  map_proto_mismatch,
}
use mockgo_server.Grpc.Merge.{grpc_get_matches, grpc_get_mismatches, grpc_get_count}

-- A loop that maps the elements in their order; the first one that panics ends it.
unfoldable pub map_all : {A B : Type 0} → (A → Option B) → List A → Option (List B)
map_all f [] = some []
map_all f (a ∷ l) = elim (f a) [
  | none ↦ none
  | some b ↦ elim (map_all f l) [ none ↦ none | some bs ↦ some (b ∷ bs) ]
]

-- The generated clients: the calls of the peer with a number, on the state of the whole cluster. A call
-- that only reads leaves the state as it is. The result is an error if the peer fails, or the network.
pub record MatchPeers (times : Timestamps) : Type 1 where
  pub Cluster : Type 0
  pub fetch_matches : ℕ → String → Cluster → Result (List (ProtoMatch times.Stamp))
  pub fetch_matches_count : ℕ → String → Cluster → Result ℕ
  pub fetch_mismatches : ℕ → Cluster → Result (List (ProtoMismatch times.Stamp))
  pub fetch_mismatches_count : ℕ → Cluster → Result ℕ
  pub remove_matches : ℕ → String → Cluster → Result (Unit {0}) × Cluster
  pub remove_mismatches : ℕ → Cluster → Result (Unit {0}) × Cluster

-- The server that is called. `read` is what the pointers in the store point to when the call runs.
module _ (times : Timestamps) {M : Type 0} (store : Matchstore M Mismatch) where
  -- FetchMatches
  unfoldable pub handle_fetch_matches :
      (M → Match) → String → store.State → Attempt (List (ProtoMatch times.Stamp)) × store.State
  unfolding map_all map_match
  handle_fetch_matches read id s =
      let (found, s') = store.get_matches id s in
      (if_returned (call_of found) λ ms. or_crash (map_all (λ m. map_match times (read m)) ms), s')

  -- FetchMatchesCount
  unfoldable pub handle_fetch_matches_count : String → store.State → Attempt ℕ × store.State
  handle_fetch_matches_count id s =
      let (found, s') = store.get_matches_count id s in (call_of found, s')

  messages : List Mismatch → List (ProtoMismatch times.Stamp)
  unfolding map_mismatch
  messages [] = []
  messages (m ∷ ms) = map_mismatch times m ∷ messages ms

  -- FetchMismatches
  unfoldable pub handle_fetch_mismatches :
      store.State → Attempt (List (ProtoMismatch times.Stamp)) × store.State
  unfolding messages
  handle_fetch_mismatches s =
      let (found, s') = store.get_mismatches s in
      (if_returned (call_of found) λ ms. returned (messages ms), s')

  -- FetchMismatchesCount
  unfoldable pub handle_fetch_mismatches_count : store.State → Attempt ℕ × store.State
  handle_fetch_mismatches_count s =
      let (found, s') = store.get_mismatches_count s in (call_of found, s')

  -- RemoveMatches
  unfoldable pub handle_remove_matches : String → store.State → Attempt (Unit {0}) × store.State
  handle_remove_matches id s = let (done, s') = store.delete_matches id s in (call_of done, s')

  -- RemoveMismatches
  unfoldable pub handle_remove_mismatches : store.State → Attempt (Unit {0}) × store.State
  handle_remove_mismatches s = let (done, s') = store.delete_mismatches s in (call_of done, s')

-- The operations of the store, over the clients of this server.
module _ (times : Timestamps) (peers : MatchPeers times) where
  -- The part of GetMatches and GetMismatches for one client.
  unfoldable pub client_matches : String → peers.Cluster → ℕ → Attempt (List Match)
  unfolding map_all map_proto_match
  client_matches id s i =
      if_returned (call_of (peers.fetch_matches i id s))
        λ ms. or_crash (map_all (map_proto_match times) ms)

  unfoldable pub client_mismatches : peers.Cluster → ℕ → Attempt (List Mismatch)
  unfolding map_all map_proto_mismatch
  client_mismatches s i =
      if_returned (call_of (peers.fetch_mismatches i s))
        λ ms. or_crash (map_all (map_proto_mismatch times) ms)

  -- GetMatches
  unfoldable pub cluster_get_matches : List ℕ → String → peers.Cluster → Attempt (List Match)
  unfolding grpc_get_matches client_matches
  cluster_get_matches clients id s = grpc_get_matches (client_matches id s) clients

  -- GetMatchesCount
  unfoldable pub cluster_get_matches_count : List ℕ → String → peers.Cluster → Result ℕ
  cluster_get_matches_count clients id s =
      grpc_get_count (λ i. peers.fetch_matches_count i id s) clients

  -- GetMismatches
  unfoldable pub cluster_get_mismatches : List ℕ → peers.Cluster → Attempt (List Mismatch)
  unfolding grpc_get_mismatches client_mismatches
  cluster_get_mismatches clients s = grpc_get_mismatches (client_mismatches s) clients

  -- GetMismatchesCount
  unfoldable pub cluster_get_mismatches_count : List ℕ → peers.Cluster → Result ℕ
  cluster_get_mismatches_count clients s =
      grpc_get_count (λ i. peers.fetch_mismatches_count i s) clients

  -- DeleteMatches
  unfoldable pub cluster_delete_matches :
      List ℕ → String → peers.Cluster → Result (Unit {0}) × peers.Cluster
  unfolding call_all
  cluster_delete_matches clients id s = call_all (λ i s'. peers.remove_matches i id s') clients s

  -- DeleteMismatches
  unfoldable pub cluster_delete_mismatches :
      List ℕ → peers.Cluster → Result (Unit {0}) × peers.Cluster
  unfolding call_all
  cluster_delete_mismatches clients s = call_all (λ i s'. peers.remove_mismatches i s') clients s
