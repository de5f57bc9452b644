-- ===== src/Prelude/Text.antt =====
-- The functions of Go's package strings that the program calls, over the characters of a text.
use Prim.Native.Nat.{ℕ, ◌≤◌}
use Prim.Native.Char.{code}
use Prim.Native.String
use Prim.Native.String.{String, [], ◌∷◌}
use mathlib.Core.Path.{◌≡◌, refl, sym, ◌∙◌}
use mathlib.Core.Bool.{Bool, true, false, ◌||◌}
use mathlib.Core.List as L
use mathlib.Core.List.{List}
use native.Mathlib.Omega.{arith}
use text.Mathlib.Text.{◌==◌}
use text.Mathlib.TextPositions.{eq_refl}
use text.Mathlib.TextLemmas.{nil-append, cons-append, tail-eq_of_cons-eq}
use mathlib.Core.Logic.{◌≢◌}
use mockgo_server.Prelude.Tests.{eqb, if◌then◌else◌}
use mockgo_server.Prelude.Lists.{length}

-- `string(c) + part`, put before the first part.
grow : String → List String → List String
grow c L.[] = L.[]
grow c (L.◌∷◌ part parts) = L.◌∷◌ (String.◌++◌ c part) parts

-- strings.Split(s, sep) for a separator of one character
unfoldable pub split : String → ℕ → List String
unfolding grow
split [] sep = L.◌∷◌ "" L.[]
split (c ∷ s) sep =
    let rest = split s sep in if eqb (code c) sep then L.◌∷◌ "" rest else grow (c ∷ []) rest

infixr 65 ◌<>◌
-- Concatenation of texts.
abbrev pub ◌<>◌ : String → String → String
s <> t = String.◌++◌ s t

-- strings.Join(parts, sep)
unfoldable pub join : List String → String → String
join L.[] sep = ""
join (L.◌∷◌ part L.[]) sep = part
join (L.◌∷◌ part (L.◌∷◌ next parts)) sep =
    String.◌++◌ part (String.◌++◌ sep (join (L.◌∷◌ next parts) sep))

-- strings.HasSuffix(s, suffix)
unfoldable pub has_suffix : String → String → Bool
has_suffix [] t = "" == t
has_suffix (c ∷ s) t = (c ∷ s) == t || has_suffix s t

-- strings.Contains(s, sub) for a text `sub` of one character
unfoldable pub contains_char : String → ℕ → Bool
contains_char [] d = false
contains_char (c ∷ s) d = eqb (code c) d || contains_char s d

-- s[1:], for a text whose first character is one byte
unfoldable pub tail_of : String → String
tail_of [] = ""
tail_of (c ∷ s) = s

-- s[:len(s)-1], for a text whose last character is one byte
unfoldable pub init_of : String → String
init_of [] = ""
init_of (c ∷ []) = ""
init_of (c ∷ (d ∷ s)) = c ∷ init_of (d ∷ s)

-- The code points of a text: its bytes, if it is ASCII.
unfoldable pub codes : String → List ℕ
codes [] = L.[]
codes (c ∷ s) = L.◌∷◌ (code c) (codes s)

split_demo : split "/a//b" b'/' ≡ L.◌∷◌ "" (L.◌∷◌ "a" (L.◌∷◌ "" (L.◌∷◌ "b" L.[])))
unfolding split
split_demo = refl

length-grow : (c : String) (parts : List String) → length (grow c parts) ≡ length parts
unfolding grow
length-grow c L.[] = refl
length-grow c (L.◌∷◌ part parts) = refl

-- A split has a first part, so that Go's `[1:]` and `[0]` of it are in range.
pub length-split-pos : (s : String) (sep : ℕ) → 1 ≤ length (split s sep)
unfolding split
length-split-pos [] sep = omega arith
length-split-pos (c ∷ s) sep =
    ground (arith, length-split-pos s sep, length-grow (c ∷ []) (split s sep))

has_suffix_self : (t : String) → has_suffix t t ≡ true
unfolding has_suffix
has_suffix_self [] = refl
has_suffix_self (c ∷ t) = ground (arith, eq_refl (c ∷ t))

pub has_suffix-append : (s t : String) → has_suffix (String.◌++◌ s t) t ≡ true
unfolding has_suffix
has_suffix-append [] t = rw nil-append (has_suffix_self t)
has_suffix-append (c ∷ s) t = rw cons-append (ground (arith, has_suffix-append s t))

-- A text with something behind it is another text.
pub ne-append : (s t : String) → t ≢ "" → s ≢ s <> t
ne-append [] t h e = h (sym (nil-append t) ∙ sym e)
ne-append (c ∷ s) t h e = ne-append s t h (tail-eq_of_cons-eq (e ∙ cons-append c s t))

-- A text with the character between two parts has it.
pub contains_char-between : (s t : String) → contains_char (s <> (":" <> t)) b':' ≡ true
unfolding contains_char
contains_char-between [] t = rw nil-append (rw cons-append refl)
contains_char-between (c ∷ s) t = rw cons-append (ground (arith, contains_char-between s t))
