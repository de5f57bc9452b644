-- ===== src/Matches/Inmemory/Deleted.antt =====
-- The deletion of the matches of an endpoint in mockgo/matches/inmemoryMatchstore.go.
use mockgo_server.Prelude.{String, ◌≡◌, arith, eq_refl, [], ok, lookup-insert, lookup, or_zero}
use mockgo_server.Matches.Inmemory.{Inmemory, get_matches, get_matches_count, delete_matches, drain}
use mockgo_server.Matches.Inmemory.Capacity.{copy_lem, drain-eq-nil}

module _ {M N : Type 0} (id : String) (s : Inmemory M N) where
  pub get_matches-delete_matches : (get_matches id (delete_matches id s).1).0 ≡ ok []
  unfolding get_matches delete_matches
  get_matches-delete_matches = ground (
    arith,
    lookup-insert id id (drain (or_zero [] (lookup id s.matches))) s.matches,
    eq_refl id,
    drain-eq-nil (or_zero [] (lookup id s.matches)),
    copy_lem {A = M} [] [],
  )

  pub get_matches_count-delete_matches : (get_matches_count id (delete_matches id s).1).0 ≡ ok 0
  unfolding get_matches_count delete_matches
  get_matches_count-delete_matches =
      ground (arith, lookup-insert id id 0 s.matches_count, eq_refl id)
