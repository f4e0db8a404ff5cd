-- ===== src/Auth/Password.antt =====
-- internal/auth/password.go: the rules for a password, on its bytes. Go ranges over the code points,
-- but all that the rules look for is ASCII, and the bytes of other code points are not.
use file_cheap.Prelude.{
  ◌≡◌, ℕ, ◌≤◌, Bool, true, false, ◌&&◌, ◌||◌, not, Option, none, some, [], ◌∷◌, if◌then◌else◌, ltb,
  leb, length, arith, ◌↔◌, nat_beq,
}
use file_cheap.Prelude.Bytes.{Bytes, bytes}

-- The messages.
pub data Weakness : Type 0 where
  too_short too_long no_upper no_lower no_digit no_special : Weakness

abbrev pub is_upper : ℕ → Bool
is_upper c = leb b'A' c && leb c b'Z'

abbrev pub is_lower : ℕ → Bool
is_lower c = leb b'a' c && leb c b'z'

abbrev pub is_digit : ℕ → Bool
is_digit c = leb b'0' c && leb c b'9'

abbrev pub special_chars : Bytes
special_chars = bytes "!@#$%^&*()-_=+[]{}|;:',.<>?/`~\"\\"

unfoldable pub occurs : ℕ → Bytes → Bool
occurs c [] = false
occurs c (sc ∷ rest) = if nat_beq c sc then true else occurs c rest

unfoldable pub is_special_char : ℕ → Bool
unfolding occurs
is_special_char c = occurs c special_chars

pub record Found : Type 0 where
  pub has_upper : Bool
  pub has_lower : Bool
  pub has_digit : Bool
  pub has_special : Bool

-- One turn of the loop: the first class that fits is noted.
unfoldable pub note_char : ℕ → Found → Found
note_char c found =
    if is_upper c
    then record found { has_upper = true }
    else if is_lower c
    then record found { has_lower = true }
    else if is_digit c
    then record found { has_digit = true }
    else if is_special_char c
    then record found { has_special = true }
    else found

unfoldable pub scan : Bytes → Found → Found
scan [] found = found
scan (c ∷ rest) found = scan rest (note_char c found)

-- `ValidatePassword`.
unfoldable pub validate_password : Bytes → Option Weakness
validate_password password =
    if ltb (length password) 8
    then some too_short
    else if ltb 128 (length password)
    then some too_long
    else let found =
        scan password (record {
          has_upper = false;
          has_lower = false;
          has_digit = false;
          has_special = false;
        }) in
      if not found.has_upper
      then some no_upper
      else if not found.has_lower
      then some no_lower
      else if not found.has_digit
      then some no_digit
      else if not found.has_special
      then some no_special
      else none

-- Some byte has the property.
abbrev pub any : (ℕ → Bool) → Bytes → Bool
any f [] = false
any f (c ∷ rest) = f c || any f rest

special_apart :
    (c : ℕ)
    → is_special_char c ≡ true
    → (is_upper c ≡ false) × (is_lower c ≡ false) × (is_digit c ≡ false)
unfolding is_special_char occurs
special_apart c h = ground (arith, h)

scan_finds :
    (s : Bytes) (found : Found)
    → ((scan s found).has_upper ≡ (found.has_upper || any is_upper s))
      × ((scan s found).has_lower ≡ (found.has_lower || any is_lower s))
      × ((scan s found).has_digit ≡ (found.has_digit || any is_digit s))
      × ((scan s found).has_special ≡ (found.has_special || any is_special_char s))
unfolding scan note_char
scan_finds [] found = ground arith
scan_finds (c ∷ s) found = ground (arith, scan_finds s (note_char c found), special_apart c)

-- A password is accepted exactly if it has from 8 to 128 bytes, among them an upper-case letter, a
-- lower-case letter, a digit and a special character.
pub validate_password_lem :
    (s : Bytes)
    → (validate_password s ≡ none) ↔ (
        (8 ≤ length s)
        × (length s ≤ 128)
        × (any is_upper s ≡ true)
        × (any is_lower s ≡ true)
        × (any is_digit s ≡ true)
        × (any is_special_char s ≡ true))
unfolding validate_password
validate_password_lem s = ground (
  arith,
  scan_finds s
      (record { has_upper = false; has_lower = false; has_digit = false; has_special = false }),
)
