-- ===== src/Mock/Search/Fitting.antt =====
-- When a path of keys fits the segments of a request's path: the README's rules for `*` and `**`, as the
-- walk of mockgo/mock/requestHandler.go reads them.
use mockgo_server.Mock.Search.{search_nodes, find_child, some, suc, get_path_segment}
use mockgo_server.Mock.Tree.{Node}
use mockgo_server.Prelude.{
  refl, zero, suc, ◌==◌, ◌∷◌, eq_iff, arith, ◌≢◌, inr, drop, Option, if◌then◌else◌, inl, ◌∷◌, [],
  none, ℕ, ◌⊎◌, ◌≡◌, List, String,
}

-- The segments in front of the first empty one, where the walk stops.
unfoldable pub until_empty : List String → List String
until_empty [] = []
until_empty (s ∷ ss) = let rest = until_empty ss in if s == "" then [] else s ∷ rest

-- A path of keys fits the segments of a request: a key stands for the segment of its own name, `*` for
-- any segment, `**` for one or more. The empty key, which an endpoint's path has where it ends in a
-- slash, can stand for a segment too: behind `**`, where no other child fits.
pub data Fits : List String → List String → Type 0 where
  end : Fits [] []
  own : {ks ss : List String} (s : String) → Fits ks ss → Fits (s ∷ ks) (s ∷ ss)
  star : {ks ss : List String} (k s : String) → k ≡ "*" → Fits ks ss → Fits (k ∷ ks) (s ∷ ss)
  stars :
      {ks : List String} (k s : String) (ss : List String) (d : ℕ)
      → k ≡ "**"
      → Fits ks (drop d ss)
      → Fits (k ∷ ks) (s ∷ ss)
  blank : {ks ss : List String} (k s : String) → k ≡ "" → Fits ks ss → Fits (k ∷ ks) (s ∷ ss)

module _ {E : Type 0} where
  -- The node at the end of a path of keys.
  unfoldable pub node_at : List String → Node E → Option (Node E)
  node_at [] n = some n
  node_at (k ∷ ks) n = elim (find_child k (search_nodes n)) [ none ↦ none | some m ↦ node_at ks m ]

pub until_empty_of_empty :
    (segments : List String) (p : ℕ)
    → get_path_segment segments p ≡ ""
    → until_empty (drop p segments) ≡ []
unfolding until_empty
until_empty_of_empty [] zero h = refl
until_empty_of_empty [] (suc p) h = refl
until_empty_of_empty (s ∷ ss) zero h = ground (arith, eq_iff s "")
until_empty_of_empty (s ∷ ss) (suc p) h = until_empty_of_empty ss p h

pub until_empty_of_ne :
    (segments : List String) (p : ℕ)
    → get_path_segment segments p ≢ ""
    → until_empty (drop p segments)
      ≡ get_path_segment segments p ∷ until_empty (drop (suc p) segments)
unfolding until_empty
until_empty_of_ne [] zero h = absurd (h refl)
until_empty_of_ne [] (suc p) h = absurd (h refl)
until_empty_of_ne (s ∷ ss) zero h = ground (arith, eq_iff s "")
until_empty_of_ne (s ∷ ss) (suc p) h = until_empty_of_ne ss p h

-- A key stands for the segment.
abbrev pub Takes : String → String → Type 0
Takes k s = (k ≡ s) ⊎ (k ≡ "*") ⊎ (k ≡ "")

pub Fits-cons :
    (k s : String) {ks ss : List String} → Takes k s → Fits ks ss → Fits (k ∷ ks) (s ∷ ss)
Fits-cons k s (inl e) f = rw e (own s f)
Fits-cons k s (inr (inl e)) f = star k s e f
Fits-cons k s (inr (inr e)) f = blank k s e f

pub Takes-own : (s t : String) → (s ≡ t) ⊎ (s ≡ "") → Takes s t
Takes-own s t (inl e) = inl e
Takes-own s t (inr e) = inr (inr e)
