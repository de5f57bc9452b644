-- ===== src/Redis/Matchstore/Kept.antt =====
-- The last items of a list, encoded and decoded, as the lists of mockgo-redis/matchstore/matchstore.go hold
-- them.
use mathlib.Core.List.{append_assoc, append-nil}
use mockgo_server.Prelude.{
  Result, ℕ, zero, suc, ◌-◌, ◌≤◌, String, ◌≡◌, refl, ap, sym, ◌∙◌, inl, inr, arith, All, List, [],
  ◌∷◌, ◌++◌, map, ok, length, drop, length-drop, length-append, drop-append, drop-drop, Bool-cases,
  ltb, ltb→lt, ltb→le,
}
use mockgo_server.Matches.Inmemory.Capacity.{last}
use mockgo_server.Redis.Matchstore.{decode_all}

module _ {A : Type 0} where
  length-last : (n : ℕ) (l : List A) → length (last n l) ≤ n
  length-last n l = omega (arith, length-drop (length l - n) l)

  last_all : (n : ℕ) (l : List A) → length l ≤ n → last n l ≡ l
  last_all n l h = let none_left : length l - n ≡ 0 = omega arith in ap (λ k. drop k l) none_left

  -- The last items of a list and one more are the last of the last items and this one.
  pub last-last : (n : ℕ) (l : List A) (a : A) → last n (last n l ++ a ∷ []) ≡ last n (l ++ a ∷ [])
  last-last n l a = elim (Bool-cases (ltb n (length l))) [
    | inr short ↦ ap (λ k. last n (k ++ a ∷ [])) (last_all n l (ltb→le n (length l) short))
    | inl long ↦
        let k = length l - n in
        let more = ltb→lt n (length l) long in
        let behind = drop-append k l (a ∷ []) (omega arith) in
        let one : length (drop k l ++ a ∷ []) - n ≡ 1 =
          omega (arith, length-append (drop k l) (a ∷ []), length-drop k l, more) in
        let all : suc k ≡ length (l ++ a ∷ []) - n =
          omega (arith, length-append l (a ∷ []), more) in
        ap (λ j. drop j (drop k l ++ a ∷ [])) one
        ∙ ap (drop 1) (sym behind)
        ∙ drop-drop k (l ++ a ∷ [])
        ∙ ap (λ j. drop j (l ++ a ∷ [])) all
  ]

module _ {A B : Type 0} (f : A → B) where
  drop-map : (n : ℕ) (l : List A) → drop n (map f l) ≡ map f (drop n l)
  drop-map zero l = refl
  drop-map (suc n) [] = refl
  drop-map (suc n) (a ∷ l) = drop-map n l

  length-map : (l : List A) → length (map f l) ≡ length l
  length-map [] = refl
  length-map (a ∷ l) = ap suc (length-map l)

  map-append : (l m : List A) → map f (l ++ m) ≡ map f l ++ map f m
  map-append [] m = refl
  map-append (a ∷ l) m = ap (λ x. f a ∷ x) (map-append l m)

  last-map : (n : ℕ) (l : List A) → last n (map f l) ≡ map f (last n l)
  last-map n l = ap (λ k. drop (k - n) (map f l)) (length-map l) ∙ drop-map (length l - n) l

pub All-drop : {A : Type 0} (P : A → Type 0) (n : ℕ) (l : List A) → All P l → All P (drop n l)
All-drop P zero l h = h
All-drop P (suc n) [] h = h
All-drop P (suc n) (a ∷ l) h = All-drop P n l h.1

pub All-append :
    {A : Type 0} (P : A → Type 0) (l : List A) (a : A) → All P l → P a → All P (l ++ a ∷ [])
All-append P [] a h p = (p, tt)
All-append P (x ∷ l) a h p = (h.0, All-append P l a h.1 p)

module _ {A : Type 0} (f : A → String) (capacity : ℕ) (kept : List String) (l : List A)
    (same : kept ≡ map f (last capacity l)) where
  pub length-kept : length kept ≤ capacity
  length-kept =
      omega (arith, ap length same, length-map f (last capacity l), length-last capacity l)

  pub last-kept : (a : A) → last capacity (kept ++ f a ∷ []) ≡ map f (last capacity (l ++ a ∷ []))
  last-kept a =
      ap (λ x. last capacity (x ++ f a ∷ [])) same
      ∙ ap (last capacity) (sym (map-append f (last capacity l) (a ∷ [])))
      ∙ last-map f capacity (last capacity l ++ a ∷ [])
      ∙ ap (map f) (last-last capacity l a)

module _ {A : Type 0} (encode : A → String) (decode : String → Result A) where
  pub decode_all-map :
      (found l : List A)
      → All (λ a. decode (encode a) ≡ ok a) l
      → decode_all decode found (map encode l) ≡ ok (found ++ l)
  unfolding decode_all
  decode_all-map found [] encoded = ap ok (sym (append-nil found))
  decode_all-map found (a ∷ l) (same, encoded) =
      rw same (decode_all-map (found ++ a ∷ []) l encoded ∙ ap ok (append_assoc found (a ∷ []) l))
