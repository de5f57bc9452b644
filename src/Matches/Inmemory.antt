-- ===== src/Matches/Inmemory.antt =====
-- mockgo/matches/inmemoryMatchstore.go. The store holds the pointers that it is handed and never
-- looks behind them, so it is generic in their types.
pub mod Log
pub mod Deleted
pub mod Capacity
pub mod Overflow
use mockgo_server.Prelude.{
  ℕ, ◌+◌, ◌%◌, ◌^◌, String, Option, none, some, List, [], ◌∷◌, ◌++◌, GoMap, lookup, insert, or_zero,
  ltb, length, drop, if◌then◌else◌, Result, ok,
}
use mockgo_server.Matches.{Matchstore}

pub record Inmemory (M N : Type 0) : Type 0 where
  pub size : ℕ
  pub matches : GoMap (List M)
  pub mismatches : List N
  pub matches_count : GoMap ℕ
  pub mismatches_count : ℕ

-- uint16(n) and uint64(n)
abbrev pub uint16 : ℕ → ℕ
uint16 n = n % 2 ^ 16

abbrev pub uint64 : ℕ → ℕ
uint64 n = n % 2 ^ 64

-- PushBack, and the removal of the front where the list is longer than the size.
unfoldable pub push_bounded : {A : Type 0} → ℕ → A → List A → List A
push_bounded size a l =
    if ltb size (uint16 (length (l ++ a ∷ []))) then drop 1 (l ++ a ∷ []) else l ++ a ∷ []

-- The loop that removes the front until the list is empty.
unfoldable pub drain : {A : Type 0} → List A → List A
drain [] = []
drain (a ∷ l) = drain l

-- The loop that copies the list, front to back.
unfoldable pub copy : {A : Type 0} → List A → List A → List A
copy result [] = result
copy result (a ∷ l) = copy (result ++ a ∷ []) l

module _ {M N : Type 0} where
  -- NewInMemoryMatchstore
  unfoldable pub new_inmemory : ℕ → Inmemory M N
  new_inmemory size = record {
    size = size;
    matches = [];
    mismatches = [];
    matches_count = [];
    mismatches_count = 0;
  }

  unfoldable pub get_matches : String → Inmemory M N → Result (List M) × Inmemory M N
  unfolding copy
  get_matches id s = (elim (lookup id s.matches) [ none ↦ ok [] | some l ↦ ok (copy [] l) ], s)

  unfoldable pub get_matches_count : String → Inmemory M N → Result ℕ × Inmemory M N
  get_matches_count id s = (ok (or_zero 0 (lookup id s.matches_count)), s)

  unfoldable pub get_mismatches : Inmemory M N → Result (List N) × Inmemory M N
  unfolding copy
  get_mismatches s = (ok (copy [] s.mismatches), s)

  unfoldable pub add_mismatch : N → Inmemory M N → Result (Unit {0}) × Inmemory M N
  unfolding push_bounded
  add_mismatch n s = (
    ok tt,
    record s {
      mismatches = push_bounded s.size n s.mismatches;
      mismatches_count = uint64 (s.mismatches_count + 1);
    },
  )

  -- A missing list is made first; the list is shared with the map's entry.
  unfoldable pub add_match : String → M → Inmemory M N → Result (Unit {0}) × Inmemory M N
  unfolding push_bounded
  add_match id m s = (
    ok tt,
    record s {
      matches = insert id (push_bounded s.size m (or_zero [] (lookup id s.matches))) s.matches;
      matches_count =
          insert id (uint64 (or_zero 0 (lookup id s.matches_count) + 1)) s.matches_count;
    },
  )

  unfoldable pub get_mismatches_count : Inmemory M N → Result ℕ × Inmemory M N
  get_mismatches_count s = (ok s.mismatches_count, s)

  -- A missing list stays missing.
  unfoldable pub delete_matches : String → Inmemory M N → Result (Unit {0}) × Inmemory M N
  unfolding drain
  delete_matches id s = (
    ok tt,
    record s {
      matches = elim (lookup id s.matches) [
        | none ↦ s.matches
        | some l ↦ insert id (drain l) s.matches
      ];
      matches_count = insert id 0 s.matches_count;
    },
  )

  unfoldable pub delete_mismatches : Inmemory M N → Result (Unit {0}) × Inmemory M N
  unfolding drain
  delete_mismatches s = (ok tt, record s { mismatches = drain s.mismatches; mismatches_count = 0 })

  abbrev pub shutdown : Inmemory M N → Result (Unit {0}) × Inmemory M N
  shutdown s = (ok tt, s)

-- InMemoryMatchstore as a Matchstore
abbrev pub inmemory_matchstore : (M N : Type 0) → Matchstore M N
inmemory_matchstore M N = record {
  State = Inmemory M N;
  get_matches = get_matches;
  get_matches_count = get_matches_count;
  get_mismatches = get_mismatches;
  add_match = add_match;
  add_mismatch = add_mismatch;
  get_mismatches_count = get_mismatches_count;
  delete_matches = delete_matches;
  delete_mismatches = delete_mismatches;
  shutdown = shutdown;
}
