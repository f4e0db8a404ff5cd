-- ===== src/Auth/ApiToken/Accepted.antt =====
-- A token that was created is accepted.
use file_cheap.Prelude.{ℕ, ◌≡◌, Bool, true, Option, some, List, ◌∷◌, ◌++◌, arith}
use file_cheap.Prelude.Key.{test_refl}
use file_cheap.Prelude.Bytes.{Bytes, bytes, bytes_key}
use file_cheap.Auth.ApiToken.{
  TokenRow, unexpired, granted, get_api_token_by_hash, CreateApiTokenInput, or_all, new_api_token,
  create_api_token, handle_api_key_auth, dual_auth,
}

get_api_token-head :
    (alive : ℕ → Bool) (now : ℕ) (row : TokenRow) (rows : List TokenRow)
    → unexpired now row.expires_at ≡ true
    → alive row.user_id ≡ true
    → get_api_token_by_hash alive now row.token_hash (row ∷ rows) ≡ some row
unfolding get_api_token_by_hash
get_api_token-head alive now row rows u a = rw (test_refl row.token_hash, u, a)

module _ (sha256 : Bytes → Bytes) where
  -- The token that CreateAPIToken returns is accepted by the middleware with the header "Bearer "
  -- and the token: it acts for its owner, with the permissions asked for (all, if none were), as
  -- long as it has not expired and its owner's account is there.
  pub dual_auth-create_api_token :
      (fails : Bool) (check_jwt : Bytes → Option ℕ) (alive : ℕ → Bool) (now user_id : ℕ)
      (input : CreateApiTokenInput) (random : Bytes) (rows rows' : List TokenRow) (token : Bytes)
      → create_api_token sha256 fails user_id input (some random) rows ≡ some (token, rows')
      → unexpired now input.expires_at ≡ true
      → alive user_id ≡ true
      → dual_auth sha256 check_jwt alive now rows' (bytes "Bearer " ++ token)
        ≡ granted user_id (some (or_all input.permissions))
  unfolding create_api_token dual_auth handle_api_key_auth
  dual_auth-create_api_token fails check_jwt alive now user_id input random rows rows' token e u a =
      ground
        (arith, get_api_token-head alive now (new_api_token sha256 user_id input random).1 rows u a)
