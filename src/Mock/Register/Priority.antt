-- ===== src/Mock/Register/Priority.antt =====
-- The order of the endpoints under one key: the insertion of registerEndpoint in
-- mockgo/mock/requestHandler.go.
use mathlib.Core.List.{Perm}
use mathlib.Core.List.Perm
use mathlib.Core.Bool.{false≢true}
use mockgo_server.Prelude.{
  All-mono, ℕ, zero, suc, ◌+◌, ◌<◌, ◌≡◌, refl, ap, arith, Bool, true, false, ◌||◌, List, [], ◌∷◌,
  ◌++◌, length, take, drop, All, if◌then◌else◌, Bool-cases, inl, inr,
}
use mockgo_server.Prelude.Int.{lt_int, lt_int_asymm, le_int_trans}
use mockgo_server.Mock.Model.{Endpoint}
use mockgo_server.Mock.Register.{set, insert_index, insert_endpoint}

module _ {R T : Type 0} where
  -- Some endpoint of the list has a lower priority than `e`.
  abbrev pub has_lower : Endpoint R T → List (Endpoint R T) → Bool
  has_lower e [] = false
  has_lower e (ep ∷ eps) = lt_int ep.prio e.prio || has_lower e eps

  -- The reference: `e` in front of the first endpoint that has a lower priority, or at the end.
  pub place : Endpoint R T → List (Endpoint R T) → List (Endpoint R T)
  place e [] = e ∷ []
  place e (ep ∷ eps) =
      let rest = place e eps in if lt_int ep.prio e.prio then e ∷ ep ∷ eps else ep ∷ rest

  -- Highest priority first.
  abbrev pub IsSorted : List (Endpoint R T) → Type 0
  IsSorted [] = Unit
  IsSorted (ep ∷ eps) = All (λ x. lt_int ep.prio x.prio ≡ false) eps × IsSorted eps

  -- How many endpoints stand before the first with a lower priority.
  rank : Endpoint R T → List (Endpoint R T) → ℕ
  rank e [] = 0
  rank e (ep ∷ eps) = let rest = rank e eps in if lt_int ep.prio e.prio then 0 else suc rest

  insert_index-eq-rank :
      (e : Endpoint R T) (i : ℕ) (l : List (Endpoint R T))
      → insert_index e i l ≡ (if has_lower e l then i + rank e l else 0)
  unfolding insert_index rank
  insert_index-eq-rank e i [] = refl
  insert_index-eq-rank e i (ep ∷ eps) = ground (arith, insert_index-eq-rank e (suc i) eps)

  rank-lt-length :
      (e : Endpoint R T) (l : List (Endpoint R T)) → has_lower e l ≡ true → rank e l < length l
  unfolding rank
  rank-lt-length e [] h = cc
  rank-lt-length e (ep ∷ eps) h = ground (arith, rank-lt-length e eps)

  split_at-rank :
      (e : Endpoint R T) (l : List (Endpoint R T))
      → has_lower e l ≡ true
      → take (rank e l) l ++ e ∷ drop (rank e l) l ≡ place e l
  unfolding rank place
  split_at-rank e [] h = cc
  split_at-rank e (ep ∷ eps) h = ground (arith, split_at-rank e eps)

set-append-drop :
    {A : Type 0} (l : List A) (i : ℕ) (a : A)
    → i < length l
    → set (take (suc i) l ++ drop i l) i a ≡ take i l ++ a ∷ drop i l
set-append-drop [] i a h = absurd (omega arith)
set-append-drop (x ∷ l) zero a h = refl
set-append-drop (x ∷ l) (suc i) a h = ap (◌∷◌ x) (set-append-drop l i a (omega arith))

module _ {R T : Type 0} (e : Endpoint R T) where
  insert_endpoint_of_none_lower :
      (l : List (Endpoint R T)) → has_lower e l ≡ false → insert_endpoint e l ≡ e ∷ l
  unfolding insert_endpoint
  insert_endpoint_of_none_lower [] h = ground (arith, insert_index-eq-rank e 0 [])
  insert_endpoint_of_none_lower (x ∷ xs) h =
      rw (insert_index-eq-rank e 0 (x ∷ xs), h) (ground arith)

  insert_endpoint_of_lower :
      (l : List (Endpoint R T)) → has_lower e l ≡ true → insert_endpoint e l ≡ place e l
  unfolding insert_endpoint
  insert_endpoint_of_lower l h =
      let below = rank-lt-length e l h in
      let index : insert_index e 0 l ≡ rank e l = ground (arith, insert_index-eq-rank e 0 l) in
      rw index (ground (arith, set-append-drop l (rank e l) e below, split_at-rank e l h))

  -- Where some endpoint has a lower priority, the new one goes in front of the first of these. Where
  -- none has, it goes in front of all, also where its own priority is the lowest.
  pub insert_endpoint-eq-place :
      (l : List (Endpoint R T)) → insert_endpoint e l ≡ (if has_lower e l then place e l else e ∷ l)
  insert_endpoint-eq-place l =
      ground (arith, insert_endpoint_of_none_lower l, insert_endpoint_of_lower l)

  place-perm : (l : List (Endpoint R T)) → Perm (place e l) (e ∷ l)
  unfolding place
  place-perm [] = Perm.refl _
  place-perm (x ∷ l) = elim (Bool-cases (lt_int x.prio e.prio)) [
    | inl low ↦ rw low (Perm.refl _)
    | inr high ↦ rw high (Perm.trans (Perm.cons x (place-perm l)) (Perm.swap _ _ _))
  ]

  -- The list after the insertion is a permutation of the old one with the new endpoint: nothing is
  -- lost or doubled.
  insert_endpoint-perm : (l : List (Endpoint R T)) → Perm (insert_endpoint e l) (e ∷ l)
  insert_endpoint-perm l = elim (Bool-cases (has_lower e l)) [
    | inl low ↦ rw (insert_endpoint_of_lower l low) (place-perm l)
    | inr none_low ↦ rw (insert_endpoint_of_none_lower l none_low) (Perm.refl _)
  ]

  All-place :
      (P : Endpoint R T → Type 0) (l : List (Endpoint R T)) → P e → All P l → All P (place e l)
  unfolding place
  All-place P [] p h = (p, tt)
  All-place P (x ∷ l) p h = ground (arith, All-place P l p)

  -- What holds of the new endpoint and of all old ones holds of all after the insertion.
  pub All-insert_endpoint :
      (P : Endpoint R T → Type 0) (l : List (Endpoint R T))
      → P e
      → All P l
      → All P (insert_endpoint e l)
  All-insert_endpoint P l p h = elim (Bool-cases (has_lower e l)) [
    | inl low ↦ rw (insert_endpoint_of_lower l low) (All-place P l p h)
    | inr none_low ↦ rw (insert_endpoint_of_none_lower l none_low) (p, h)
  ]

  place-IsSorted : (l : List (Endpoint R T)) → IsSorted l → IsSorted (place e l)
  unfolding place
  place-IsSorted [] h = (tt, tt)
  place-IsSorted (x ∷ l) h = elim (Bool-cases (lt_int x.prio e.prio)) [
    | inl low ↦
        let below = lt_int_asymm x.prio e.prio low in
        rw low ((below, All-mono l (λ y q. le_int_trans e.prio x.prio y.prio below q) h.0), h)
    | inr high ↦ rw high (All-place _ l high h.0, place-IsSorted l h.1)
  ]

  -- A list that is sorted by priority stays so if some endpoint of it has a lower priority than the
  -- new one.
  pub insert_endpoint-IsSorted :
      (l : List (Endpoint R T)) → has_lower e l ≡ true → IsSorted l → IsSorted (insert_endpoint e l)
  insert_endpoint-IsSorted l low h = rw (insert_endpoint_of_lower l low) (place-IsSorted l h)

  none_lower :
      (l : List (Endpoint R T)) → All (λ y. lt_int e.prio y.prio ≡ true) l → has_lower e l ≡ false
  none_lower [] h = refl
  none_lower (x ∷ l) h = ground (arith, lt_int_asymm e.prio x.prio h.0, none_lower l h.1)

  -- An endpoint whose priority is lower than that of every registered one goes in front of them, so
  -- that the list is not sorted by priority any more.
  insert_endpoint-unsorted :
      (x : Endpoint R T) (l : List (Endpoint R T))
      → All (λ y. lt_int e.prio y.prio ≡ true) (x ∷ l)
      → (insert_endpoint e (x ∷ l) ≡ e ∷ x ∷ l) × (¬ IsSorted (insert_endpoint e (x ∷ l)))
  insert_endpoint-unsorted x l h =
      let first = insert_endpoint_of_none_lower (x ∷ l) (none_lower (x ∷ l) h) in
      (first, λ sorted. false≢true (ground (arith, rw first at sorted)))
