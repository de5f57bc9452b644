-- ===== src/Prelude/Decimal.antt =====
-- strconv.Itoa of a natural number, and strconv.Atoi.
use Prim.Native.Nat.{ℕ, zero, suc, ◌+◌, ◌-◌, ◌*◌, ◌/◌, ◌%◌, ◌^◌}
use Prim.Native.String.{String}
use mathlib.Core.Path.{◌≡◌, refl}
use mathlib.Core.Bool.{Bool, true, false, ◌&&◌}
use mathlib.Core.Option.{Option, none, some}
use mathlib.Core.List.{List, [], ◌∷◌}
use mockgo_server.Prelude.Tests.{ltb, leb, eqb, if◌then◌else◌}
use mockgo_server.Prelude.Lists.{get_or}
use mockgo_server.Prelude.Text.{codes, ◌<>◌}
use mockgo_server.Prelude.Outcome.{Result, ok, err}
use mockgo_server.Prelude.Int.{ℤ, pos, negsuc}

digit : ℕ → String
digit n = get_or ("0" ∷ "1" ∷ "2" ∷ "3" ∷ "4" ∷ "5" ∷ "6" ∷ "7" ∷ "8" ∷ "9" ∷ []) n ""

-- The digits of a number, on fuel: a number has fewer digits than its successor.
show_from : ℕ → ℕ → String
unfolding digit
show_from zero n = ""
show_from (suc fuel) n =
    let front = show_from fuel (n / 10) in if ltb n 10 then digit n else front <> digit (n % 10)

-- strconv.Itoa
unfoldable pub itoa : ℕ → String
unfolding show_from
itoa n = show_from (suc n) n

itoa_demo : itoa 207 ≡ "207"
unfolding itoa
itoa_demo = refl

-- The value of the digits behind `n`, if there are only digits.
read_digits : ℕ → List ℕ → Option ℕ
read_digits n [] = some n
read_digits n (c ∷ cs) =
    let rest = read_digits (n * 10 + (c - b'0')) cs in
    if leb b'0' c && leb c b'9' then rest else none

read_number : List ℕ → Option ℕ
unfolding read_digits
read_number [] = none
read_number (c ∷ cs) = read_digits 0 (c ∷ cs)

-- The number n, or its negation, if it is one of 64 bits; `problem` makes the text of an error.
in_range : (String → String) → Bool → Option ℕ → Result ℤ
in_range problem negative none = err (problem "invalid syntax")
in_range problem false (some n) =
    if ltb n (2 ^ 63) then ok (pos n) else err (problem "value out of range")
in_range problem true (some zero) = ok (pos 0)
in_range problem true (some (suc n)) =
    if ltb n (2 ^ 63) then ok (negsuc n) else err (problem "value out of range")

read_signed : (String → String) → List ℕ → Result ℤ
unfolding in_range read_number
read_signed problem [] = in_range problem false none
read_signed problem (c ∷ cs) =
    if eqb c b'-'
    then in_range problem true (read_number cs)
    else if eqb c b'+'
    then in_range problem false (read_number cs)
    else in_range problem false (read_number (c ∷ cs))

-- strconv.Atoi, with strconv.Quote, of which its errors make use
unfoldable pub atoi : (String → String) → String → Result ℤ
unfolding read_signed
atoi quote s = read_signed (λ why. "strconv.Atoi: parsing " <> quote s <> ": " <> why) (codes s)

atoi_demo : atoi (λ s. s) "-204" ≡ ok (negsuc 203)
unfolding atoi codes
atoi_demo = refl
