-- ===== src/Api/DeviceAuth/Keys.antt =====
-- The keys that the device flow hands out.
use file_cheap.Prelude.{ℕ, ◌≡◌, ◌≢◌, ap, Bool, List, ◌∷◌, arith, length}
use file_cheap.Prelude.Bytes.{Bytes, bytes_key, bytes_test_iff, trim_prefix}
use file_cheap.Encoding.{hex, length-hex, length-raw_url}
use file_cheap.Auth.ApiToken.{
  api_token_prefix, TokenRow, get_api_token_by_hash, hash_token, handle_api_key_auth,
}
use file_cheap.Api.DeviceAuth.{device_row}

module _ (sha256 : Bytes → Bytes) (sha256_size : (s : Bytes) → length (sha256 s) ≡ 32) where
  hash-ne-hash : (s t : Bytes) → hex (sha256 s) ≢ hash_token sha256 t
  unfolding hash_token
  hash-ne-hash s t e = omega (
    arith,
    ap (λ x. length x) e,
    length-hex (sha256 s),
    length-raw_url (sha256 t),
    sha256_size s,
    sha256_size t,
  )

  -- The row that an approval stores authenticates nobody: with a SHA-256 of 32 bytes, the middleware
  -- answers every token as it would without the row, the key handed out for it included.
  pub handle_api_key_auth-device_row :
      (alive : ℕ → Bool) (now user_id : ℕ) (api_key token : Bytes) (rows : List TokenRow)
      → handle_api_key_auth sha256 alive now (device_row sha256 user_id api_key ∷ rows) token
        ≡ handle_api_key_auth sha256 alive now rows token
  unfolding handle_api_key_auth device_row get_api_token_by_hash
  handle_api_key_auth-device_row alive now user_id api_key token rows =
      let raw = trim_prefix api_token_prefix token in
      ground (
        arith,
        bytes_test_iff (hex (sha256 api_key)) (hash_token sha256 raw),
        hash-ne-hash api_key raw,
      )
