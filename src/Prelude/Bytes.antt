-- ===== src/Prelude/Bytes.antt =====
-- ASCII texts as bytes: `codes` gives the bytes of a text, `text_of` the text of bytes.
use Prim.Native.Nat.{ℕ, ◌<◌, compare, Ordering}
use Prim.Native.Char.{Char, char, code, nul, IsScalar}
use Prim.Native.String.{String}
use mathlib.Core.Path.{◌≡◌, refl, ap}
use mathlib.Core.List.{List, [], ◌∷◌, ◌++◌}
use mathlib.Core.Logic.{dite}
use native.Mathlib.Omega.{arith}
use native.Mathlib.Decide.{dec_lt}
use text.Mathlib.TextEquality.{Char-path}
use text.Mathlib.TextLemmas.{nil-append, cons-append}
use mockgo_server.Prelude.Lists.{All}
use mockgo_server.Prelude.Text.{codes, ◌<>◌}

compare-lt : (n : ℕ) → n < 55296 → compare n 55296 ≡ Ordering.lt
compare-lt n h = ground arith

IsScalar_of_lt : (n : ℕ) → n < 55296 → IsScalar n
IsScalar_of_lt n h = rw (compare-lt n h) tt

-- The character of a byte.
byte_char : ℕ → Char
unfolding dec_lt
byte_char n = dite (dec_lt n 128) (λ h. char n (IsScalar_of_lt n (omega arith))) (λ _. nul)

unfoldable pub text_of : List ℕ → String
unfolding byte_char IsScalar_of_lt compare-lt
text_of [] = ""
text_of (n ∷ l) = String.◌∷◌ (byte_char n) (text_of l)

abbrev pub IsAscii : String → Type 0
IsAscii s = All (λ n. n < 128) (codes s)

code-byte_char : (n : ℕ) → n < 128 → code (byte_char n) ≡ n
unfolding byte_char
code-byte_char n h = ground arith

text_of_demo : text_of (72 ∷ 105 ∷ []) ≡ "Hi"
unfolding text_of dec_lt
text_of_demo = refl

pub codes-text_of : (l : List ℕ) → All (λ n. n < 128) l → codes (text_of l) ≡ l
unfolding codes text_of
codes-text_of [] h = refl
codes-text_of (n ∷ l) (small, h) = ground (arith, code-byte_char n small, codes-text_of l h)

pub text_of-codes : (s : String) → IsAscii s → text_of (codes s) ≡ s
unfolding codes text_of
text_of-codes String.[] h = refl
text_of-codes (String.◌∷◌ c s) (small, h) =
    rw (Char-path (byte_char (code c)) c (code-byte_char (code c) small), text_of-codes s h) refl

pub codes-append : (s t : String) → codes (s <> t) ≡ codes s ++ codes t
unfolding codes
codes-append String.[] t = rw nil-append refl
codes-append (String.◌∷◌ c s) t =
    rw cons-append (ap (λ (l : List ℕ). code c ∷ l) (codes-append s t))
