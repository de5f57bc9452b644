-- ===== src/Matches/Tests.antt =====
-- The theorems on mockgo/matches at concrete calls.
use mockgo_server.Prelude.{arith, ℕ, ◌≡◌, List, [], ◌∷◌, map, ok}
use mockgo_server.Matches.Inmemory.{new_inmemory, get_matches, get_matches_count}
use mockgo_server.Matches.Inmemory.Log.{
  Call, matched, missed, matches_deleted, serve_calls, get_matches-serve_calls,
}
use mockgo_server.Matches.Inmemory.Overflow.{get_matches-unbounded}

abbrev calls : List (Call ℕ ℕ)
calls =
    matched "a" 1
    ∷ matches_deleted "a"
    ∷ matched "a" 2
    ∷ matched "b" 3
    ∷ matched "a" 4
    ∷ missed 5
    ∷ matched "a" 6
    ∷ missed 7
    ∷ missed 8
    ∷ []

get_matches-serve_calls_example :
    ((get_matches "a" (serve_calls (new_inmemory 2) calls)).0 ≡ ok (4 ∷ 6 ∷ []))
    × ((get_matches_count "a" (serve_calls (new_inmemory 2) calls)).0 ≡ ok 3)
get_matches-serve_calls_example = get_matches-serve_calls 2 (omega arith) calls "a"

get_matches-unbounded_example :
    (get_matches {M = ℕ} "a"
      (serve_calls {N = ℕ} (new_inmemory 65535) (map (matched "a") (1 ∷ 2 ∷ [])))).0
    ≡ ok (1 ∷ 2 ∷ [])
get_matches-unbounded_example = get_matches-unbounded ℕ "a" (1 ∷ 2 ∷ [])
