-- ===== src/Encoding.antt =====
-- The encodings of Go's standard library that the program calls: encoding/hex and the URL alphabet
-- of encoding/base64, with and without padding.
use file_cheap.Prelude.{
  ℕ, ◌+◌, ◌*◌, ◌/◌, ◌%◌, ◌-◌, ◌≡◌, refl, [], ◌∷◌, arith, ltb, nat_beq, if◌then◌else◌, length,
  replicate,
}
use file_cheap.Prelude.Bytes.{Bytes}

abbrev hex_digit : ℕ → ℕ
hex_digit n = if ltb n 10 then 48 + n else 87 + n

-- `hex.EncodeToString`.
unfoldable pub hex : Bytes → Bytes
hex [] = []
hex (b ∷ bs) = hex_digit (b / 16) ∷ hex_digit (b % 16) ∷ hex bs

abbrev url_char : ℕ → ℕ
url_char n =
    if ltb n 26
    then b'A' + n
    else if ltb n 52
    then 71 + n
    else if ltb n 62
    then n - 4
    else if nat_beq n 62
    then b'-'
    else b'_'

-- `base64.RawURLEncoding.EncodeToString`; `padding` follows a last group that is not full.
encode_url : ℕ → Bytes → Bytes
encode_url padding [] = []
encode_url padding (a ∷ []) =
    url_char (a / 4) ∷ url_char (a % 4 * 16) ∷ replicate (2 * padding) b'='
encode_url padding (a ∷ b ∷ []) =
    url_char (a / 4)
    ∷ url_char (a % 4 * 16 + b / 16)
    ∷ url_char (b % 16 * 4)
    ∷ replicate padding b'='
encode_url padding (a ∷ b ∷ c ∷ rest) =
    url_char (a / 4)
    ∷ url_char (a % 4 * 16 + b / 16)
    ∷ url_char (b % 16 * 4 + c / 64)
    ∷ url_char (c % 64)
    ∷ encode_url padding rest

unfoldable pub raw_url : Bytes → Bytes
unfolding encode_url
raw_url bs = encode_url 0 bs

-- `base64.URLEncoding.EncodeToString`.
unfoldable pub padded_url : Bytes → Bytes
unfolding encode_url
padded_url bs = encode_url 1 bs

pub length-hex : (bs : Bytes) → length (hex bs) ≡ 2 * length bs
unfolding hex
length-hex [] = refl
length-hex (b ∷ bs) = omega (arith, length-hex bs)

length-encode_url : (bs : Bytes) → length (encode_url 0 bs) ≡ (4 * length bs + 2) / 3
unfolding encode_url
length-encode_url [] = refl
length-encode_url (a ∷ []) = refl
length-encode_url (a ∷ b ∷ []) = refl
length-encode_url (a ∷ b ∷ c ∷ rest) = omega (arith, length-encode_url rest)

pub length-raw_url : (bs : Bytes) → length (raw_url bs) ≡ (4 * length bs + 2) / 3
unfolding raw_url
length-raw_url bs = length-encode_url bs
