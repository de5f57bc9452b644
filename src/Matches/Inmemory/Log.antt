-- ===== src/Matches/Inmemory/Log.antt =====
-- What mockgo/matches/inmemoryMatchstore.go promises, against a log of all that was recorded.
use mockgo_server.Prelude.{
  ◌∙◌, sym, ap, ℕ, ◌+◌, ◌<◌, String, ◌≡◌, refl, arith, eq_iff, ◌==◌, List, [], ◌∷◌, ◌++◌, length,
  length-append, if◌then◌else◌, ok, lookup, lookup-insert, or_zero,
}
use mockgo_server.Matches.Inmemory.{
  Inmemory, uint64, push_bounded, drain, new_inmemory, get_matches, get_matches_count,
  get_mismatches, get_mismatches_count, add_match, add_mismatch, delete_matches, delete_mismatches,
}
use mockgo_server.Matches.Inmemory.Capacity.{
  last-nil, last, push_bounded-last, drain-eq-nil, copy_lem,
}

-- A call that changes the store.
pub data Call (M N : Type 0) : Type 0 where
  matched : String → M → Call M N
  missed : N → Call M N
  matches_deleted : String → Call M N
  mismatches_deleted : Call M N

-- All that was recorded since the last deletion, without a bound.
pub record Log (M N : Type 0) : Type 0 where
  pub matches : String → List M
  pub mismatches : List N

module _ {M N : Type 0} where
  abbrev pub empty_log : Log M N
  empty_log = record { matches = λ id. []; mismatches = [] }

  -- The specification: the log after a call.
  abbrev pub record_call : Log M N → Call M N → Log M N
  record_call g (matched id m) = record g {
    matches = λ j. if id == j then g.matches id ++ m ∷ [] else g.matches j;
  }
  record_call g (missed n) = record g { mismatches = g.mismatches ++ n ∷ [] }
  record_call g (matches_deleted id) = record g {
    matches = λ j. if id == j then [] else g.matches j;
  }
  record_call g mismatches_deleted = record g { mismatches = [] }

  -- The store after a call.
  unfoldable pub serve_call : Inmemory M N → Call M N → Inmemory M N
  serve_call s (matched id m) = (add_match id m s).1
  serve_call s (missed n) = (add_mismatch n s).1
  serve_call s (matches_deleted id) = (delete_matches id s).1
  serve_call s mismatches_deleted = (delete_mismatches s).1

  -- The store holds the last `size` items of the log, and the numbers of all.
  pub record Holds (size : ℕ) (s : Inmemory M N) (g : Log M N) : Type 0 where
    pub same_size : s.size ≡ size
    pub kept : (id : String) → or_zero [] (lookup id s.matches) ≡ last size (g.matches id)
    pub counted :
        (id : String) → or_zero 0 (lookup id s.matches_count) ≡ uint64 (length (g.matches id))
    pub kept_mismatches : s.mismatches ≡ last size g.mismatches
    pub counted_mismatches : s.mismatches_count ≡ uint64 (length g.mismatches)

  new_inmemory-Holds : (size : ℕ) → Holds size (new_inmemory size) empty_log
  unfolding new_inmemory lookup
  new_inmemory-Holds size = record {
    same_size = refl;
    kept = λ id. sym (last-nil size);
    counted = λ id. refl;
    kept_mismatches = sym (last-nil size);
    counted_mismatches = refl;
  }

  serve_call-Holds :
      (size : ℕ) (s : Inmemory M N) (g : Log M N) (c : Call M N)
      → size < 65535
      → Holds size s g
      → Holds size (serve_call s c) (record_call g c)
  unfolding serve_call add_match add_mismatch delete_matches delete_mismatches
  serve_call-Holds size s g (matched id m) small h = record {
    same_size = h.same_size;
    kept = λ j. ground (
      arith,
      lookup-insert id j (push_bounded s.size m (or_zero [] (lookup id s.matches))) s.matches,
      eq_iff id j,
      h.kept id,
      h.kept j,
      h.same_size,
      push_bounded-last size m (g.matches id) small,
    );
    counted = λ j. ground (
      arith,
      lookup-insert id j (uint64 (or_zero 0 (lookup id s.matches_count) + 1)) s.matches_count,
      eq_iff id j,
      h.counted id,
      h.counted j,
      length-append (g.matches id) (m ∷ []),
    );
    kept_mismatches = h.kept_mismatches;
    counted_mismatches = h.counted_mismatches;
  }
  serve_call-Holds size s g (missed n) small h = record {
    same_size = h.same_size;
    kept = h.kept;
    counted = h.counted;
    kept_mismatches =
        ground (arith, h.same_size, h.kept_mismatches, push_bounded-last size n g.mismatches small);
    counted_mismatches = ground (arith, h.counted_mismatches, length-append g.mismatches (n ∷ []));
  }
  serve_call-Holds size s g (matches_deleted id) small h = record {
    same_size = h.same_size;
    kept = λ j. ground (
      arith,
      h.kept j,
      last-nil {A = M} size,
      eq_iff id j,
      lookup-insert id j (drain (or_zero [] (lookup id s.matches))) s.matches,
      drain-eq-nil (or_zero [] (lookup id s.matches)),
    );
    counted = λ j. ground (arith, lookup-insert id j 0 s.matches_count, eq_iff id j, h.counted j);
    kept_mismatches = h.kept_mismatches;
    counted_mismatches = h.counted_mismatches;
  }
  serve_call-Holds size s g mismatches_deleted small h = record {
    same_size = h.same_size;
    kept = h.kept;
    counted = h.counted;
    kept_mismatches = drain-eq-nil s.mismatches ∙ sym (last-nil size);
    counted_mismatches = refl;
  }

  -- The store and the log after a sequence of calls.
  unfoldable pub serve_calls : Inmemory M N → List (Call M N) → Inmemory M N
  serve_calls s [] = s
  serve_calls s (c ∷ cs) = serve_calls (serve_call s c) cs

  abbrev pub record_calls : Log M N → List (Call M N) → Log M N
  record_calls g [] = g
  record_calls g (c ∷ cs) = record_calls (record_call g c) cs

  pub serve_calls-append :
      (s : Inmemory M N) (cs ds : List (Call M N))
      → serve_calls s (cs ++ ds) ≡ serve_calls (serve_calls s cs) ds
  unfolding serve_calls
  serve_calls-append s [] ds = refl
  serve_calls-append s (c ∷ cs) ds = serve_calls-append (serve_call s c) cs ds

  pub record_calls-append :
      (g : Log M N) (cs ds : List (Call M N))
      → record_calls g (cs ++ ds) ≡ record_calls (record_calls g cs) ds
  record_calls-append g [] ds = refl
  record_calls-append g (c ∷ cs) ds = record_calls-append (record_call g c) cs ds

  serve_calls-Holds :
      (size : ℕ) (s : Inmemory M N) (g : Log M N) (cs : List (Call M N))
      → size < 65535
      → Holds size s g
      → Holds size (serve_calls s cs) (record_calls g cs)
  unfolding serve_calls
  serve_calls-Holds size s g [] small h = h
  serve_calls-Holds size s g (c ∷ cs) small h =
      serve_calls-Holds size (serve_call s c) (record_call g c) cs small
        (serve_call-Holds size s g c small h)

module _ {M N : Type 0} (size : ℕ) (small : size < 65535) (cs : List (Call M N)) where
  -- Whatever the calls, with a size below 65535 GetMatches returns the last `size` matches of the
  -- endpoint since its last deletion, oldest first, and GetMatchesCount the number of all of them,
  -- modulo 2 ^ 64.
  pub get_matches-serve_calls :
      (id : String)
      → ((get_matches id (serve_calls (new_inmemory size) cs)).0
          ≡ ok (last size ((record_calls empty_log cs).matches id)))
        × ((get_matches_count id (serve_calls (new_inmemory size) cs)).0
            ≡ ok (uint64 (length ((record_calls empty_log cs).matches id))))
  unfolding get_matches get_matches_count
  get_matches-serve_calls id =
      let h =
        serve_calls-Holds {M = M} {N = N} size (new_inmemory size) empty_log cs small
          (new_inmemory-Holds size) in
      (
        ground (
          arith,
          h.kept id,
          copy_lem [] (or_zero [] (lookup id (serve_calls (new_inmemory size) cs).matches)),
        ),
        ap ok (h.counted id),
      )

  -- Whatever the calls, with a size below 65535 GetMismatches returns the last `size` mismatches since
  -- their last deletion, oldest first, and GetMismatchesCount the number of all of them, modulo 2 ^ 64.
  pub get_mismatches-serve_calls :
      ((get_mismatches (serve_calls (new_inmemory size) cs)).0
        ≡ ok (last size (record_calls empty_log cs).mismatches))
      × ((get_mismatches_count (serve_calls (new_inmemory size) cs)).0
          ≡ ok (uint64 (length (record_calls empty_log cs).mismatches)))
  unfolding get_mismatches get_mismatches_count
  get_mismatches-serve_calls =
      let h =
        serve_calls-Holds {M = M} {N = N} size (new_inmemory size) empty_log cs small
          (new_inmemory-Holds size) in
      (ap ok (copy_lem [] _ ∙ h.kept_mismatches), ap ok h.counted_mismatches)
