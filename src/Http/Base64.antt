-- ===== src/Http/Base64.antt =====
-- Go's base64.StdEncoding, over bytes.
use mockgo_server.Prelude.{
  ℕ, ◌+◌, ◌-◌, ◌*◌, ◌/◌, ◌%◌, ◌<◌, ◌≡◌, refl, arith, codes, false, ◌||◌, ◌&&◌, List, [], ◌∷◌, All,
  Option, none, some, ltb, leb, eqb, if◌then◌else◌,
}

-- The letter of six bits.
letter : ℕ → ℕ
letter n =
    if ltb n 26
    then n + b'A'
    else if ltb n 52
    then n + 71
    else if ltb n 62
    then n - 4
    else if eqb n 62
    then b'+'
    else b'/'

-- EncodeToString
pub encode : List ℕ → List ℕ
encode [] = []
encode (a ∷ []) = letter (a / 4) ∷ letter (a % 4 * 16) ∷ b'=' ∷ b'=' ∷ []
encode (a ∷ b ∷ []) =
    letter (a / 4) ∷ letter (a % 4 * 16 + b / 16) ∷ letter (b % 16 * 4) ∷ b'=' ∷ []
encode (a ∷ b ∷ c ∷ l) =
    letter (a / 4)
    ∷ letter (a % 4 * 16 + b / 16)
    ∷ letter (b % 16 * 4 + c / 64)
    ∷ letter (c % 64)
    ∷ encode l

-- The six bits of a letter.
bits : ℕ → Option ℕ
bits c =
    if leb b'A' c && leb c b'Z'
    then some (c - b'A')
    else if leb b'a' c && leb c b'z'
    then some (c - 71)
    else if leb b'0' c && leb c b'9'
    then some (c + 4)
    else if eqb c b'+'
    then some 62
    else if eqb c b'/'
    then some 63
    else none

one_byte : Option ℕ → Option ℕ → Option (List ℕ)
one_byte (some x) (some y) = some ((x * 4 + y / 16) ∷ [])
one_byte _ _ = none

two_bytes : Option ℕ → Option ℕ → Option ℕ → Option (List ℕ)
two_bytes (some x) (some y) (some z) = some ((x * 4 + y / 16) ∷ (y % 16 * 16 + z / 4) ∷ [])
two_bytes _ _ _ = none

three_bytes : Option ℕ → Option ℕ → Option ℕ → Option ℕ → Option (List ℕ) → Option (List ℕ)
three_bytes (some x) (some y) (some z) (some u) (some l) =
    some ((x * 4 + y / 16) ∷ (y % 16 * 16 + z / 4) ∷ (z % 4 * 64 + u) ∷ l)
three_bytes _ _ _ _ _ = none

-- Four letters at the end, of which the last ones can be padding, and four letters before the end.
last_group : ℕ → ℕ → ℕ → ℕ → Option (List ℕ)
unfolding one_byte two_bytes three_bytes
last_group x y z u =
    if eqb u b'='
    then if eqb z b'=' then one_byte (bits x) (bits y) else two_bytes (bits x) (bits y) (bits z)
    else three_bytes (bits x) (bits y) (bits z) (bits u) (some [])

decode_groups : List ℕ → Option (List ℕ)
unfolding last_group
decode_groups [] = some []
decode_groups (x ∷ y ∷ z ∷ u ∷ []) = last_group x y z u
decode_groups (x ∷ y ∷ z ∷ u ∷ v ∷ l) =
    three_bytes (bits x) (bits y) (bits z) (bits u) (decode_groups (v ∷ l))
decode_groups _ = none

-- Line breaks are skipped.
without_breaks : List ℕ → List ℕ
without_breaks [] = []
without_breaks (c ∷ l) =
    let rest = without_breaks l in if eqb c 10 || eqb c 13 then rest else c ∷ rest

-- DecodeString, where `none` stands for its error
pub decode : List ℕ → Option (List ℕ)
unfolding decode_groups without_breaks
decode l = decode_groups (without_breaks l)

encode_demo : encode (codes "any carnal pleas") ≡ codes "YW55IGNhcm5hbCBwbGVhcw=="
unfolding encode letter codes
encode_demo = refl

decode_demo : decode (codes "YW55IGNhcm5hbCBw\nbGVhcw==") ≡ some (codes "any carnal pleas")
unfolding decode bits codes
decode_demo = refl

bits-letter : (n : ℕ) → n < 64 → bits (letter n) ≡ some n
unfolding bits letter
bits-letter n h = ground arith

-- A letter is an ASCII character other than the padding and a line break.
abbrev IsLetter : ℕ → Type 0
IsLetter c = (c < 128) × (eqb c b'=' ≡ false) × ((eqb c 10 || eqb c 13) ≡ false)

letter-IsLetter : (n : ℕ) → n < 64 → IsLetter (letter n)
unfolding letter
letter-IsLetter n h = ground arith

abbrev pub IsBytes : List ℕ → Type 0
IsBytes = All (λ n. n < 256)

pub encode-IsAscii : (l : List ℕ) → IsBytes l → All (λ n. n < 128) (encode l)
unfolding encode letter
encode-IsAscii [] h = tt
encode-IsAscii (a ∷ []) h = ground arith
encode-IsAscii (a ∷ b ∷ []) h = ground arith
encode-IsAscii (a ∷ b ∷ c ∷ l) h = ground (arith, encode-IsAscii l)

without_breaks-encode : (l : List ℕ) → IsBytes l → without_breaks (encode l) ≡ encode l
unfolding encode without_breaks
without_breaks-encode [] h = refl
without_breaks-encode (a ∷ []) h =
    ground (arith, letter-IsLetter (a / 4), letter-IsLetter (a % 4 * 16))
without_breaks-encode (a ∷ b ∷ []) h = ground (
  arith,
  letter-IsLetter (a / 4),
  letter-IsLetter (a % 4 * 16 + b / 16),
  letter-IsLetter (b % 16 * 4),
)
without_breaks-encode (a ∷ b ∷ c ∷ l) h = ground (
  arith,
  letter-IsLetter (a / 4),
  letter-IsLetter (a % 4 * 16 + b / 16),
  letter-IsLetter (b % 16 * 4 + c / 64),
  letter-IsLetter (c % 64),
  without_breaks-encode l,
)

-- Three bytes and the letters of the bytes behind them.
three_bytes_lem :
    (a b c : ℕ) (l : Option (List ℕ)) (k : List ℕ)
    → a < 256
    → b < 256
    → c < 256
    → l ≡ some k
    → three_bytes
        (bits (letter (a / 4)))
        (bits (letter (a % 4 * 16 + b / 16)))
        (bits (letter (b % 16 * 4 + c / 64)))
        (bits (letter (c % 64)))
        l
      ≡ some (a ∷ b ∷ c ∷ k)
unfolding three_bytes
three_bytes_lem a b c l k ha hb hc h = ground (
  arith,
  bits-letter (a / 4),
  bits-letter (a % 4 * 16 + b / 16),
  bits-letter (b % 16 * 4 + c / 64),
  bits-letter (c % 64),
)

decode_groups-encode : (l : List ℕ) → IsBytes l → decode_groups (encode l) ≡ some l
unfolding encode decode_groups
decode_groups-encode [] h = refl
decode_groups-encode (a ∷ []) h = ground (arith, bits-letter (a / 4), bits-letter (a % 4 * 16))
decode_groups-encode (a ∷ b ∷ []) h = ground (
  arith,
  letter-IsLetter (b % 16 * 4),
  bits-letter (a / 4),
  bits-letter (a % 4 * 16 + b / 16),
  bits-letter (b % 16 * 4),
)
decode_groups-encode (a ∷ b ∷ c ∷ []) (ha, (hb, (hc, h))) =
    ground (arith, letter-IsLetter (c % 64), three_bytes_lem a b c (some []) [] ha hb hc refl)
decode_groups-encode (a ∷ b ∷ c ∷ d ∷ []) (ha, (hb, (hc, h))) =
    three_bytes_lem a b c _ (d ∷ []) ha hb hc (decode_groups-encode (d ∷ []) h)
decode_groups-encode (a ∷ b ∷ c ∷ d ∷ e ∷ []) (ha, (hb, (hc, h))) =
    three_bytes_lem a b c _ (d ∷ e ∷ []) ha hb hc (decode_groups-encode (d ∷ e ∷ []) h)
decode_groups-encode (a ∷ b ∷ c ∷ d ∷ e ∷ f ∷ l) (ha, (hb, (hc, h))) =
    three_bytes_lem a b c _ (d ∷ e ∷ f ∷ l) ha hb hc (decode_groups-encode (d ∷ e ∷ f ∷ l) h)

pub decode-encode : (l : List ℕ) → IsBytes l → decode (encode l) ≡ some l
unfolding decode
decode-encode l h = rw (without_breaks-encode l h) (decode_groups-encode l h)
