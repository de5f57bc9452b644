-- ===== src/Http/BasicAuth/Laws.antt =====
-- Header.Get after Header.Add, and strings.Cut.
use Prim.Native.Char.{Char, code}
use mathlib.Core.Path.{subst}
use text.Mathlib.TextLemmas.{nil-append, cons-append}
use mockgo_server.Prelude.{
  String, ◌<>◌, ◌≡◌, refl, arith, false, true, List, [], ◌∷◌, Option, none, some, GoMap, All,
  eq_iff, contains_char, Bool-cases, inl, inr, eqb,
}
use mockgo_server.Http.{header_get, same_name, canonical}
use mockgo_server.Http.BasicAuth.{cut, push_front, add_value}

-- No key of the header has this name.
abbrev pub IsAbsent : String → GoMap (List String) → Type 0
IsAbsent name h = All (λ e. same_name (canonical name) e.0 ≡ false) h

module _ (name key val : String) where
  pub header_get-add_value_other :
      (h : GoMap (List String))
      → same_name (canonical name) key ≡ false
      → header_get (add_value key val h) name ≡ header_get h name
  unfolding header_get add_value
  header_get-add_value_other [] other = ground arith
  header_get-add_value_other ((j, vs) ∷ h) other =
      ground (arith, eq_iff j key, header_get-add_value_other h other)

  pub header_get-add_value :
      (h : GoMap (List String))
      → same_name (canonical name) key ≡ true
      → IsAbsent name h
      → header_get (add_value key val h) name ≡ val
  unfolding header_get add_value
  header_get-add_value [] same absent = ground arith
  header_get-add_value ((j, vs) ∷ h) same (other, absent) =
      ground (arith, eq_iff j key, header_get-add_value h same absent)

  pub IsAbsent-add_value :
      (h : GoMap (List String))
      → same_name (canonical name) key ≡ false
      → IsAbsent name h
      → IsAbsent name (add_value key val h)
  unfolding add_value
  IsAbsent-add_value [] other absent = (other, tt)
  IsAbsent-add_value ((j, vs) ∷ h) other (other', absent) =
      ground (arith, IsAbsent-add_value h other absent)

pub cut-between :
    (s t : String) → contains_char s b':' ≡ false → cut (s <> (":" <> t)) b':' ≡ some (s, t)
unfolding cut contains_char
cut-between String.[] t h = rw nil-append (rw cons-append (ground (arith, nil-append t)))
cut-between (String.◌∷◌ c s) t h =
    rw cons-append (ground (arith, cut-between s t, cons-append c "" s, nil-append s))

-- The text before a cut has no colon.
abbrev HasNoColon : Option (String × String) → Type 0
HasNoColon none = Unit {0}
HasNoColon (some (before, after)) = contains_char before b':' ≡ false

push_front-HasNoColon :
    (c : Char) (found : Option (String × String))
    → eqb (code c) b':' ≡ false
    → HasNoColon found
    → HasNoColon (push_front (String.◌∷◌ c "") found)
unfolding push_front contains_char
push_front-HasNoColon c none other h = tt
push_front-HasNoColon c (some (before, after)) other h =
    rw (cons-append c "" before, nil-append before) (ground arith)

cut-HasNoColon : (s : String) → HasNoColon (cut s b':')
unfolding cut contains_char
cut-HasNoColon String.[] = tt
cut-HasNoColon (String.◌∷◌ c s) = elim (Bool-cases (eqb (code c) b':')) [
  | inl colon ↦ rw colon refl
  | inr other ↦ rw other (push_front-HasNoColon c (cut s b':') other (cut-HasNoColon s))
]

pub cut-no_colon :
    (s before after : String)
    → cut s b':' ≡ some (before, after)
    → contains_char before b':' ≡ false
cut-no_colon s before after h = subst HasNoColon h (cut-HasNoColon s)
