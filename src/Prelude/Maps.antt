-- ===== src/Prelude/Maps.antt =====
-- Go maps with string keys, as association lists. A key occurs once in what `insert` builds; the
-- order of the entries stands for the order, which Go leaves open, in which a `range` visits them.
use Prim.Native.String.{String}
use mathlib.Core.Path.{◌≡◌, refl}
use mathlib.Core.Bool.{true, false}
use mathlib.Core.Option.{Option, none, some}
use mathlib.Core.List.{List, [], ◌∷◌}
use native.Mathlib.Omega.{arith}
use text.Mathlib.Text.{◌==◌}
use text.Mathlib.TextEquality.{eq_iff}
use mockgo_server.Prelude.Tests.{if◌then◌else◌}

abbrev pub GoMap {ℓ} : Type ℓ → Type ℓ
GoMap V = List (String × V)

module _ {ℓ} {V : Type ℓ} where
  -- What `m[key]` finds, where `, present` tells a missing key from one with the zero value.
  unfoldable pub lookup : String → GoMap V → Option V
  lookup key [] = none
  lookup key ((name, held) ∷ others) =
      let later = lookup key others in elim (name == key) [ true ↦ some held | false ↦ later ]

  -- The assignment `m[key] = value`: in the place of an old entry, or as the last one.
  unfoldable pub insert : String → V → GoMap V → GoMap V
  insert key value [] = (key, value) ∷ []
  insert key value ((name, held) ∷ others) =
      let later = insert key value others in
      elim (name == key) [ true ↦ (name, value) ∷ others | false ↦ (name, held) ∷ later ]

  -- `m[k]`, which is the zero value where the key is missing
  abbrev pub or_zero : V → Option V → V
  or_zero z none = z
  or_zero z (some v) = v

  pub lookup-insert :
      (key other : String) (value : V) (m : GoMap V)
      → lookup other (insert key value m) ≡ (if key == other then some value else lookup other m)
  unfolding lookup insert
  lookup-insert key other value [] = ground arith
  lookup-insert key other value ((name, held) ∷ others) = ground (
    arith,
    lookup-insert key other value others,
    eq_iff name key,
    eq_iff name other,
    eq_iff key other,
  )

pub lookup-nil {ℓ} : {V : Type ℓ} (k : String) → lookup {V = V} k [] ≡ none
unfolding lookup
lookup-nil k = refl
