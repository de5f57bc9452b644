-- ===== src/Redis/Matchstore/Tally.antt =====
-- The number of the matches of an endpoint that calls of mockgo-redis/matchstore/matchstore.go add since its last
-- deletion, and whether there is one.
use mockgo_server.Prelude.{
  ℕ, suc, ◌+◌, ◌≤◌, String, ◌==◌, ◌≡◌, refl, inl, inr, arith, false, Bool-cases, eq_iff, All, List,
  [], ◌∷◌, length-append, Option, some, or_zero, if◌then◌else◌, length, Bool, ◌||◌,
}
use mockgo_server.Matches.{Match, Mismatch}
use mockgo_server.Matches.Inmemory.Log.{
  Call, matched, missed, matches_deleted, mismatches_deleted, Log, record_call, record_calls,
}
use mockgo_server.Redis.Matchstore.{mismatches_key, RecordJson}
use mockgo_server.Redis.Matchstore.Calls.{IsFine}

-- The key of the list that a call works on.
abbrev pub key_of : Call Match Mismatch → String
key_of (matched id m) = id
key_of (missed n) = mismatches_key
key_of (matches_deleted id) = id
key_of mismatches_deleted = mismatches_key

-- A call works on the list.
abbrev pub touches : String → List (Call Match Mismatch) → Bool
touches key [] = false
touches key (c ∷ cs) = (key_of c == key) || touches key cs

-- What a call makes of the number of a list's counter.
unfoldable pub count_call : Call Match Mismatch → Option ℕ → Option ℕ
count_call (matched id m) n = some (suc (or_zero 0 n))
count_call (missed m) n = some (suc (or_zero 0 n))
count_call (matches_deleted id) n = some 0
count_call mismatches_deleted n = some 0

abbrev pub count_at : String → Call Match Mismatch → Option ℕ → Option ℕ
count_at key c n = if key_of c == key then count_call c n else n

unfoldable pub tally : String → Option ℕ → List (Call Match Mismatch) → Option ℕ
tally key n [] = n
tally key n (c ∷ cs) = tally key (count_at key c n) cs

count_call-some :
    (c : Call Match Mismatch) (n : Option ℕ) → count_call c n ≡ some (or_zero 0 (count_call c n))
unfolding count_call
count_call-some (matched id m) n = refl
count_call-some (missed m) n = refl
count_call-some (matches_deleted id) n = refl
count_call-some mismatches_deleted n = refl

tally-some :
    (key : String) (n : Option ℕ) (cs : List (Call Match Mismatch))
    → n ≡ some (or_zero 0 n)
    → tally key n cs ≡ some (or_zero 0 (tally key n cs))
unfolding tally
tally-some key n [] h = h
tally-some key n (c ∷ cs) h =
    tally-some key (count_at key c n) cs (ground (arith, count_call-some c n))

-- The number is there as soon as a call worked on the list.
pub tally-touches :
    (key : String) (n : Option ℕ) (cs : List (Call Match Mismatch))
    → tally key n cs ≡ (if touches key cs then some (or_zero 0 (tally key n cs)) else n)
unfolding tally
tally-touches key n [] = refl
tally-touches key n (c ∷ cs) = elim (Bool-cases (key_of c == key)) [
  | inl same ↦ rw same (tally-some key (count_call c n) cs (count_call-some c n))
  | inr other ↦ rw other (tally-touches key n cs)
]

-- What was recorded of the list of a key since its last deletion.
abbrev pub recorded : Log Match Mismatch → String → ℕ
recorded g key = if key == mismatches_key then length g.mismatches else length (g.matches key)

module _ (json : RecordJson) (encode : Match → String) (encode_mismatch : Mismatch → String) where
  count_call-recorded :
      (key : String) (n : Option ℕ) (g : Log Match Mismatch) (c : Call Match Mismatch)
      → IsFine json encode encode_mismatch c
      → or_zero 0 n ≡ recorded g key
      → or_zero 0 (count_at key c n) ≡ recorded (record_call g c) key
  unfolding count_call
  count_call-recorded key n g (matched id m) (name, _, _) same =
      ground (arith, eq_iff id key, length-append (g.matches id) (m ∷ []), name.1)
  count_call-recorded key n g (missed m) fine same = ground (
    arith,
    eq_iff mismatches_key key,
    eq_iff key mismatches_key,
    length-append g.mismatches (m ∷ []),
  )
  count_call-recorded key n g (matches_deleted id) name same = ground (arith, eq_iff id key, name.1)
  count_call-recorded key n g mismatches_deleted fine same =
      ground (arith, eq_iff mismatches_key key, eq_iff key mismatches_key)

  pub tally-recorded :
      (key : String) (n : Option ℕ) (g : Log Match Mismatch) (cs : List (Call Match Mismatch))
      → All (IsFine json encode encode_mismatch) cs
      → or_zero 0 n ≡ recorded g key
      → or_zero 0 (tally key n cs) ≡ recorded (record_calls g cs) key
  unfolding tally
  tally-recorded key n g [] fine same = same
  tally-recorded key n g (c ∷ cs) (fine, rest) same =
      tally-recorded key (count_at key c n) (record_call g c) cs rest
        (count_call-recorded key n g c fine same)

count_call-bound :
    (c : Call Match Mismatch) (n : Option ℕ) → or_zero 0 (count_call c n) ≤ suc (or_zero 0 n)
unfolding count_call
count_call-bound (matched id m) n = omega arith
count_call-bound (missed m) n = omega arith
count_call-bound (matches_deleted id) n = omega arith
count_call-bound mismatches_deleted n = omega arith

pub count_at-bound :
    (key : String) (c : Call Match Mismatch) (n : Option ℕ)
    → or_zero 0 (count_at key c n) ≤ suc (or_zero 0 n)
count_at-bound key c n = elim (Bool-cases (key_of c == key)) [
  | inl same ↦ rw same (count_call-bound c n)
  | inr other ↦ rw other (omega arith)
]

pub tally-bound :
    (key : String) (n : Option ℕ) (cs : List (Call Match Mismatch))
    → or_zero 0 (tally key n cs) ≤ or_zero 0 n + length cs
unfolding tally
tally-bound key n [] = omega arith
tally-bound key n (c ∷ cs) =
    omega (arith, tally-bound key (count_at key c n) cs, count_at-bound key c n)
