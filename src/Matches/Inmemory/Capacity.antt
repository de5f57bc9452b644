-- ===== src/Matches/Inmemory/Capacity.antt =====
-- The bounded lists of mockgo/matches/inmemoryMatchstore.go: what PushBack with the test on the length
-- keeps, and what the loops over a list do.
use mockgo_server.Prelude.{
  drop_all, suc, ltb→le, ltb→lt, ℕ, ◌-◌, ◌<◌, ◌≡◌, refl, sym, ap, ◌∙◌, arith, List, [], ◌∷◌, ◌++◌,
  length, drop, length-append, length-drop, drop-append, drop-drop, ltb, Bool-cases, inl, inr,
}
use mathlib.Core.List.{append_assoc, append-nil}
use mockgo_server.Matches.Inmemory.{push_bounded, drain, copy, uint16}

module _ {A : Type 0} where
  -- The last `n` items of a list, in their order.
  abbrev pub last : ℕ → List A → List A
  last n l = drop (length l - n) l

  pub last-nil : (n : ℕ) → last n [] ≡ []
  last-nil n = drop_all (0 - n) [] (omega arith)

  -- A list at its capacity gives up its first item for a new one: what is kept are the last items of
  -- all that were pushed. The size must be below 65535, where a list of one more item still has a
  -- length that fits in 16 bits.
  pub push_bounded-last :
      (size : ℕ) (a : A) (l : List A)
      → size < 65535
      → push_bounded size a (last size l) ≡ last size (l ++ a ∷ [])
  unfolding push_bounded
  push_bounded-last size a l h =
      let all = l ++ a ∷ [] in
      let k = length l - size in
      let grown = length-append l (a ∷ []) in
      let kept = length-drop k all in
      rw (← drop-append k l (a ∷ []) (omega arith))
        (elim (Bool-cases (ltb size (uint16 (length (drop k all))))) [
          | inl full ↦
              let over = ltb→lt size (uint16 (length (drop k all))) full in
              rw full (drop-drop k all ∙ ap (λ n. drop n all) {x = suc k} (omega arith))
          | inr room ↦
              let under = ltb→le size (uint16 (length (drop k all))) room in
              rw room (ap (λ n. drop n all) {x = k} (omega arith))
        ])

  -- At the size 65535 the length wraps to 0 before it passes the size, so nothing is ever removed.
  pub push_bounded-max : (a : A) (l : List A) → push_bounded 65535 a l ≡ l ++ a ∷ []
  unfolding push_bounded
  push_bounded-max a l = ground arith

  pub drain-eq-nil : (l : List A) → drain l ≡ []
  unfolding drain
  drain-eq-nil [] = refl
  drain-eq-nil (a ∷ l) = drain-eq-nil l

  pub copy_lem : (result l : List A) → copy result l ≡ result ++ l
  unfolding copy
  copy_lem result [] = sym (append-nil result)
  copy_lem result (a ∷ l) = copy_lem (result ++ a ∷ []) l ∙ append_assoc result (a ∷ []) l
