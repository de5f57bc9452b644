-- ===== src/Mock/Search/Steps.antt =====
-- The walk of mockgo/mock/requestHandler.go over the list of the segments that are left, which is
-- what the proofs recur on.
use mockgo_server.Prelude.{ℕ, zero, suc, String, ◌≡◌, refl, List, [], ◌∷◌, drop, get_or}

-- The first of the segments that are left, "" if there is none, and the others.
abbrev pub first : List String → String
first [] = ""
first (s ∷ ss) = s

abbrev pub others : List String → List String
others [] = []
others (s ∷ ss) = ss

pub get_or-drop :
    (segments : List String) (pos : ℕ) → get_or segments pos "" ≡ first (drop pos segments)
get_or-drop [] zero = refl
get_or-drop [] (suc pos) = refl
get_or-drop (s ∷ ss) zero = refl
get_or-drop (s ∷ ss) (suc pos) = get_or-drop ss pos

pub drop-suc :
    (segments : List String) (pos : ℕ) → drop (suc pos) segments ≡ others (drop pos segments)
drop-suc [] zero = refl
drop-suc [] (suc pos) = refl
drop-suc (s ∷ ss) zero = refl
drop-suc (s ∷ ss) (suc pos) = drop-suc ss pos
