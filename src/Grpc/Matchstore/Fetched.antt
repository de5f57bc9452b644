-- ===== src/Grpc/Matchstore/Fetched.antt =====
-- What GetMatches of mockgo-grpc/matchstore/matchstore.go returns, over the answers of the servers.
use mathlib.Core.List.{Perm}
use mockgo_server.Prelude.{
  ℕ, String, ◌≡◌, refl, List, [], ◌∷◌, ◌++◌, map, Option, none, some, Option-cases, inl, inr, All,
  All-mono, ok, eqb, if◌then◌else◌,
}
use mockgo_server.Matches.{Match, Mismatch, Matchstore}
use mockgo_server.Grpc.Attempt.{returned, crashed}
use mockgo_server.Grpc.Messages.{Timestamps, ProtoMatch, map_match, map_proto_match}
use mockgo_server.Grpc.Messages.Roundtrip.{IsFinished, map_proto_match-map_match}
use mockgo_server.Grpc.Merge.{concat, fetch_all}
use mockgo_server.Grpc.Merge.Complete.{grpc_get_matches_complete}
use mockgo_server.Grpc.Matchstore.{
  MatchPeers, map_all, handle_fetch_matches, handle_fetch_matches_count, handle_remove_matches,
  client_matches, cluster_get_matches,
}

-- What is mapped there and back.
map_all_back :
    {A B C : Type 0} (f : A → Option B) (g : B → Option C) (h : A → C) (l : List A)
    → All (λ a. (b : B) × (f a ≡ some b) × (g b ≡ some (h a))) l
    → (bs : List B) × (map_all f l ≡ some bs) × (map_all g bs ≡ some (map h l))
unfolding map_all
map_all_back f g h [] back = ([], refl, refl)
map_all_back f g h (a ∷ l) ((b, there, home), back) =
    let (bs, all_there, all_home) = map_all_back f g h l back in
    (b ∷ bs, rw (there, all_there, map_all) refl, rw (home, all_home, map_all) refl)

map_all_crash :
    {A B : Type 0} (f : A → Option B) (before : List A) (a : A) (after : List A)
    → f a ≡ none
    → map_all f (before ++ a ∷ after) ≡ none
unfolding map_all
map_all_crash f [] a after h = rw (h, map_all) refl
map_all_crash f (b ∷ before) a after h = elim (Option-cases (f b)) [
  | inl bad ↦ rw (bad, map_all) refl
  | inr (c, good) ↦ rw (good, map_all_crash f before a after h, map_all) refl
]

module _ (times : Timestamps) {M : Type 0} (store : Matchstore M Mismatch) where
  -- FetchMatches panics while one of the matches that the store holds for the endpoint has no response:
  -- one that is still being answered, or whose answer failed.
  pub handle_fetch_matches-crashed :
      (read : M → Match) (id : String) (s : store.State) (before : List M) (p : M) (after : List M)
      → (store.get_matches id s).0 ≡ ok (before ++ p ∷ after)
      → (read p).actual_response ≡ none
      → (handle_fetch_matches times store read id s).0 ≡ crashed
  unfolding handle_fetch_matches map_match
  handle_fetch_matches-crashed read id s before p after found pending = rw (found) (
      rw
        (map_all_crash (λ m. map_match times (read m)) before p after
          (rw (pending, map_match) refl))
        refl)

-- The servers behind the calls: a call that reads returns what the server's handler returns; a removal that
-- succeeds ran the handler on the peer's store, and on no other. Each server has its own store and its own
-- memory.
pub record Answers (times : Timestamps) (peers : MatchPeers times) {M : Type 0}
    (store : Matchstore M Mismatch) : Type 0 where
  pub states : peers.Cluster → ℕ → store.State
  pub read : ℕ → M → Match
  pub answered :
      (i : ℕ) (id : String) (s : peers.Cluster) (ms : List (ProtoMatch times.Stamp))
      → (handle_fetch_matches times store (read i) id (states s i)).0 ≡ returned ms
      → peers.fetch_matches i id s ≡ ok ms
  pub counted :
      (i : ℕ) (id : String) (s : peers.Cluster) (n : ℕ)
      → (handle_fetch_matches_count times store id (states s i)).0 ≡ returned n
      → peers.fetch_matches_count i id s ≡ ok n
  pub removed :
      (i j : ℕ) (id : String) (s : peers.Cluster)
      → (peers.remove_matches i id s).0 ≡ ok tt
      → states (peers.remove_matches i id s).1 j
        ≡ (if eqb i j then (handle_remove_matches times store id (states s i)).1 else states s j)

module _ (times : Timestamps) (kept : (t : ℕ) → times.as_time (times.stamp t) ≡ t)
    (peers : MatchPeers times) {M : Type 0} (store : Matchstore M Mismatch)
    (d : Answers times peers store) (id : String) (s : peers.Cluster) (held : ℕ → List M) where
  -- The store of the server holds these matches for the endpoint, and all have their responses.
  abbrev pub Holds : ℕ → Type 0
  Holds i =
      ((store.get_matches id (d.states s i)).0 ≡ ok (held i))
      × All (λ m. IsFinished (d.read i m)) (held i)

  -- The matches of all clients.
  abbrev pub all_held : List ℕ → List (List Match)
  all_held [] = []
  all_held (i ∷ is) = map (d.read i) (held i) ∷ all_held is

  client_matches_of_Holds :
      (i : ℕ) → Holds i → client_matches times peers id s i ≡ returned (map (d.read i) (held i))
  unfolding client_matches handle_fetch_matches
  client_matches_of_Holds i (found, finished) =
      let (ms, there, home) =
        map_all_back (λ m. map_match times (d.read i m)) (map_proto_match times) (d.read i) (held i)
          (All-mono (held i) (λ m f. map_proto_match-map_match times kept (d.read i m) f)
            finished) in
      rw (d.answered i id s ms (rw found (rw there refl)), home) refl

  fetch_all_of_Holds :
      (clients : List ℕ)
      → All Holds clients
      → fetch_all (client_matches times peers id s) clients ≡ returned (all_held clients)
  unfolding fetch_all
  fetch_all_of_Holds [] h = refl
  fetch_all_of_Holds (i ∷ is) h = rw (client_matches_of_Holds i h.0, fetch_all_of_Holds is h.1) refl

  -- Where the servers answer, and every match that their stores hold for the endpoint has its response,
  -- GetMatches returns all these matches, as they are: none is lost, and none is returned twice.
  pub cluster_get_matches_complete :
      (clients : List ℕ)
      → All Holds clients
      → (found : List Match) × (cluster_get_matches times peers clients id s ≡ returned found)
        × Perm found (concat (all_held clients))
  unfolding cluster_get_matches
  cluster_get_matches_complete clients h =
      grpc_get_matches_complete (client_matches times peers id s) clients (all_held clients)
        (fetch_all_of_Holds clients h)
