-- ===== src/Grpc/Merge/Complete.antt =====
-- The merge of mockgo-grpc/matchstore/matchstore.go returns every match of every server once.
use mathlib.Core.List.{Perm}
use mathlib.Core.List.Perm
use mockgo_server.Prelude.{
  ◌≢◌, ℕ, zero, suc, ◌+◌, ◌<◌, ◌≡◌, refl, ap, arith, List, [], ◌∷◌, ◌++◌, length, take, drop,
  length-append, List-cases, inl, inr,
}
use mockgo_server.Grpc.Attempt.{Attempt, returned}
use mockgo_server.Grpc.Merge.{heads, merge, concat, fetch_all, grpc_get_matches}

module _ {A : Type 0} where
  -- What is left of the answers from a position on.
  left : ℕ → List (List A) → List A
  left pos [] = []
  left pos (l ∷ ls) = drop pos l ++ left pos ls

  take-drop-suc : (pos : ℕ) (l : List A) → take 1 (drop pos l) ++ drop (suc pos) l ≡ drop pos l
  take-drop-suc zero [] = refl
  take-drop-suc zero (x ∷ l) = refl
  take-drop-suc (suc pos) [] = refl
  take-drop-suc (suc pos) (x ∷ l) = take-drop-suc pos l

  middle : (x : A) (d r : List A) → Perm (d ++ x ∷ r) (x ∷ d ++ r)
  middle x [] r = Perm.refl _
  middle x (y ∷ d) r = Perm.trans (Perm.cons y (middle x d r)) (Perm.swap x y (d ++ r))

  behind : (h d r : List A) → Perm (h ++ (d ++ r)) (d ++ (h ++ r))
  behind [] d r = Perm.refl _
  behind (x ∷ h) d r = Perm.trans (Perm.cons x (behind h d r)) (Perm.symm (middle x d (h ++ r)))

  exchange : (a h d r : List A) → Perm ((a ++ h) ++ (d ++ r)) ((a ++ d) ++ (h ++ r))
  exchange [] h d r = behind h d r
  exchange (x ∷ a) h d r = Perm.cons x (exchange a h d r)

  heads-left :
      (pos : ℕ) (ls : List (List A)) → Perm (heads pos ls ++ left (suc pos) ls) (left pos ls)
  unfolding heads left
  heads-left pos [] = Perm.refl _
  heads-left pos (l ∷ ls) =
      Perm.trans
        (exchange (take 1 (drop pos l)) (heads pos ls) (drop (suc pos) l) (left (suc pos) ls))
        (rw (take-drop-suc pos l) (Perm.append_left (drop pos l) (heads-left pos ls)))

  length-heads-left :
      (pos : ℕ) (ls : List (List A))
      → length (heads pos ls) + length (left (suc pos) ls) ≡ length (left pos ls)
  unfolding heads left
  length-heads-left pos [] = refl
  length-heads-left pos (l ∷ ls) = omega (
    arith,
    length-heads-left pos ls,
    ap length (take-drop-suc pos l),
    length-append (take 1 (drop pos l)) (drop (suc pos) l),
    length-append (take 1 (drop pos l)) (heads pos ls),
    length-append (drop (suc pos) l) (left (suc pos) ls),
    length-append (drop pos l) (left pos ls),
  )

  cons-ne-nil : {x : A} {l : List A} → x ∷ l ≢ []
  cons-ne-nil h = cc

  left-eq-nil : (pos : ℕ) (ls : List (List A)) → heads pos ls ≡ [] → left pos ls ≡ []
  unfolding heads left
  left-eq-nil pos [] h = refl
  left-eq-nil pos (l ∷ ls) h = elim (List-cases (drop pos l)) [
    | inl none' ↦ rw none' (left-eq-nil pos ls (rw none' at h))
    | inr (x, xs, some') ↦ absurd (cons-ne-nil (rw some' at h))
  ]

  merge-perm :
      (fuel pos : ℕ) (ls : List (List A))
      → length (left pos ls) < fuel
      → Perm (merge fuel pos ls) (left pos ls)
  unfolding merge
  merge-perm zero pos ls h = absurd (omega arith)
  merge-perm (suc fuel) pos ls h = elim (List-cases (heads pos ls)) [
    | inl done ↦ rw (done, merge) (rw (left-eq-nil pos ls done) (Perm.refl _))
    | inr (x, xs, more) ↦
        let fewer : length (left (suc pos) ls) < fuel =
          omega (arith, length-heads-left pos ls, ap length more) in
        rw (more, merge)
          (rw more at (
            Perm.trans (Perm.append_left (heads pos ls) (merge-perm fuel (suc pos) ls fewer))
              (heads-left pos ls)))
  ]

  left-zero : (ls : List (List A)) → left 0 ls ≡ concat ls
  unfolding left
  left-zero [] = refl
  left-zero (l ∷ ls) = ap (λ r. l ++ r) (left-zero ls)

-- Where all servers answer, GetMatches returns their matches in another order: none is lost, and none
-- is returned twice.
pub grpc_get_matches_complete :
    {A : Type 0} (fetch : ℕ → Attempt (List A)) (clients : List ℕ) (ls : List (List A))
    → fetch_all fetch clients ≡ returned ls
    → (found : List A) × (grpc_get_matches fetch clients ≡ returned found) × Perm found (concat ls)
unfolding grpc_get_matches
grpc_get_matches_complete fetch clients ls h = (
  merge (suc (length (concat ls))) 0 ls,
  rw h refl,
  rw (← left-zero ls) (merge-perm (suc (length (left 0 ls))) 0 ls (omega arith)),
)
