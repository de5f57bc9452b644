-- ===== src/Matches/Inmemory/Overflow.antt =====
-- mockgo/matches/inmemoryMatchstore.go with the size 65535: `uint16(matches.Len())` wraps to 0 before
-- it passes the size.
use mockgo_server.Prelude.{
  lookup-nil, String, ◌≡◌, refl, sym, ◌∙◌, arith, eq_refl, List, [], ◌∷◌, ◌++◌, map, ok, lookup,
  lookup-insert, or_zero,
}
use mathlib.Core.List.{append_assoc, append-nil}
use mockgo_server.Matches.Inmemory.{Inmemory, add_match, push_bounded, new_inmemory, get_matches}
use mockgo_server.Matches.Inmemory.Capacity.{push_bounded-max, copy_lem}
use mockgo_server.Matches.Inmemory.Log.{matched, serve_call, serve_calls}

module _ {M : Type 0} (N : Type 0) (id : String) where
  abbrev held : Inmemory M N → List M
  held s = or_zero [] (lookup id s.matches)

  held-add_match :
      (m : M) (s : Inmemory M N) → s.size ≡ 65535 → held (add_match id m s).1 ≡ held s ++ m ∷ []
  unfolding add_match
  held-add_match m s h = ground (
    arith,
    push_bounded-max m (held s),
    lookup-insert id id (push_bounded s.size m (held s)) s.matches,
    eq_refl id,
  )

  held-serve_calls :
      (ms : List M) (s : Inmemory M N)
      → s.size ≡ 65535
      → held (serve_calls s (map (matched id) ms)) ≡ held s ++ ms
  unfolding serve_calls serve_call
  held-serve_calls [] s h = sym (append-nil (held s))
  held-serve_calls (m ∷ ms) s h =
      held-serve_calls ms (add_match id m s).1 (unfold add_match in h)
      ∙ rw (held-add_match m s h) (append_assoc (held s) (m ∷ []) ms)

  -- With the size 65535, however many matches are added, GetMatches returns them all: the store has
  -- no bound.
  pub get_matches-unbounded :
      (ms : List M)
      → (get_matches id (serve_calls {N = N} (new_inmemory 65535) (map (matched id) ms))).0 ≡ ok ms
  unfolding get_matches new_inmemory
  get_matches-unbounded ms =
      let s = serve_calls {N = N} (new_inmemory 65535) (map (matched id) ms) in
      ground (
        arith,
        held-serve_calls ms (new_inmemory 65535) refl,
        copy_lem [] (held s),
        lookup-nil {V = List M} id,
      )
