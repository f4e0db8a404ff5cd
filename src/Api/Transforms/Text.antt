-- ===== src/Api/Transforms/Text.antt =====
-- What internal/api/transforms.go uses of Go's packages strings and strconv, on bytes.
use file_cheap.Prelude.{
  ℕ, ◌+◌, ◌-◌, ◌*◌, Bool, true, false, ◌&&◌, ◌||◌, Option, none, some, List, [], ◌∷◌, if◌then◌else◌,
  leb, nat_beq,
}
use file_cheap.Prelude.Bytes.{Bytes, bytes_key}
use file_cheap.Prelude.Key.{◌==◌}

-- `strings.Split` at one byte.
unfoldable pub split : ℕ → Bytes → List Bytes
split sep [] = [] ∷ []
split sep (c ∷ s) =
    let rest = split sep s in
    if nat_beq c sep
    then [] ∷ rest
    else elim rest [ [] ↦ (c ∷ []) ∷ [] | part ∷ parts ↦ (c ∷ part) ∷ parts ]

-- `strings.SplitN(s, sep, 2)`, where it gives two parts.
unfoldable pub split_once : ℕ → Bytes → Option (Bytes × Bytes)
split_once sep [] = none
split_once sep (c ∷ s) =
    let rest = split_once sep s in
    if nat_beq c sep
    then some ([], s)
    else elim rest [ none ↦ none | some (key, value) ↦ some (c ∷ key, value) ]

-- White space in UTF-8: one byte, two, or three.
is_space₁ : ℕ → Bool
is_space₁ a = (leb 9 a && leb a 13) || nat_beq a 32

is_space₂ : ℕ → ℕ → Bool
is_space₂ a b = nat_beq a 194 && (nat_beq b 133 || nat_beq b 160)

is_space₃ : ℕ → ℕ → ℕ → Bool
is_space₃ a b c =
    (nat_beq a 225 && nat_beq b 154 && nat_beq c 128)
    || (nat_beq a 226
        && nat_beq b 128
        && ((leb 128 c && leb c 138) || nat_beq c 168 || nat_beq c 169 || nat_beq c 175))
    || (nat_beq a 226 && nat_beq b 129 && nat_beq c 159)
    || (nat_beq a 227 && nat_beq b 128 && nat_beq c 128)

-- A text without what it begins with of one, two or three bytes, as often as that is there.
unfoldable trim_by : (ℕ → Bool) → (ℕ → ℕ → Bool) → (ℕ → ℕ → ℕ → Bool) → Bytes → Bytes
trim_by one two three [] = []
trim_by one two three (a ∷ []) = if one a then [] else a ∷ []
trim_by one two three (a ∷ b ∷ []) = elim (one a) [
  | true ↦ trim_by one two three (b ∷ [])
  | false ↦ if two a b then [] else a ∷ b ∷ []
]
trim_by one two three (a ∷ b ∷ c ∷ s) = elim (one a) [
  | true ↦ trim_by one two three (b ∷ c ∷ s)
  | false ↦ elim (two a b) [
    | true ↦ trim_by one two three (c ∷ s)
    | false ↦ elim (three a b c) [ true ↦ trim_by one two three s | false ↦ a ∷ b ∷ c ∷ s ]
  ]
]

unfoldable reverse_onto : Bytes → Bytes → Bytes
reverse_onto [] later = later
reverse_onto (c ∷ s) later = reverse_onto s (c ∷ later)

-- `strings.TrimSpace`.
unfoldable pub trim_space : Bytes → Bytes
unfolding is_space₁ is_space₂ is_space₃ trim_by reverse_onto
trim_space s =
    let right =
      trim_by is_space₁ (λ b a. is_space₂ a b) (λ c b a. is_space₃ a b c)
        (reverse_onto (trim_by is_space₁ is_space₂ is_space₃ s) []) in
    reverse_onto right []

-- `strings.ToLower`: for the letters of ASCII, and for the capital I with a dot (two bytes), the only
-- other letter that becomes one of the letters that the names below have.
unfoldable pub to_lower : Bytes → Bytes
to_lower [] = []
to_lower (c ∷ []) = (if leb b'A' c && leb c b'Z' then c + 32 else c) ∷ []
to_lower (c ∷ d ∷ s) = elim (nat_beq c 196 && nat_beq d 176) [
  | true ↦ b'i' ∷ to_lower s
  | false ↦ (if leb b'A' c && leb c b'Z' then c + 32 else c) ∷ to_lower (d ∷ s)
]

-- The number of decimal digits, after those that stand for `n`; `none` if there is another byte.
unfoldable pub digits_value : ℕ → Bytes → Option ℕ
digits_value n [] = some n
digits_value n (c ∷ s) =
    let rest = digits_value (n * 10 + (c - b'0')) s in
    if leb b'0' c && leb c b'9' then rest else none

unfoldable pub unsigned : Bytes → Option ℕ
unfolding digits_value
unsigned [] = none
unsigned (c ∷ s) = digits_value 0 (c ∷ s)

-- A number with a plus sign or none.
unfoldable pub after_plus : Bytes → Option ℕ
unfolding unsigned
after_plus [] = none
after_plus (c ∷ s) = if nat_beq c b'+' then unsigned s else unsigned (c ∷ s)

-- `strconv.Atoi` for a number that must be from 1 to `limit`, which is below 2^63: any other number
-- is refused, and so is what is no number, or one out of the range of an int.
unfoldable pub positive_up_to : ℕ → Bytes → Option ℕ
unfolding after_plus
positive_up_to limit value = elim (after_plus value) [
  | none ↦ none
  | some n ↦ if leb 1 n && leb n limit then some n else none
]

unfoldable pub is_named : Bytes → List Bytes → Bool
is_named s [] = false
is_named s (name ∷ names) = if s == name then true else is_named s names
