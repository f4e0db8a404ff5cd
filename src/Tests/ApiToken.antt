-- ===== src/Tests/ApiToken.antt =====
-- Runs of the API tokens.
use file_cheap.Prelude.{
  ◌≡◌, refl, true, false, Option, none, some, List, [], ◌∷◌, ◌++◌, length, replicate,
}
use file_cheap.Prelude.Bytes.{Bytes, bytes}
use file_cheap.Auth.ApiToken.{
  TokenRow, CreateApiTokenInput, granted, denied, invalid_jwt, get_api_token_by_hash, has_hash,
  create_api_token, handle_api_key_auth, dual_auth,
}
use file_cheap.Auth.ApiToken.Accepted.{dual_auth-create_api_token}

-- A stand-in for SHA-256.
abbrev digest : Bytes → Bytes
digest s = length s ∷ replicate 31 7

abbrev input : CreateApiTokenInput
input = record { name = "ci"; permissions = "files:read" ∷ []; expires_at = some 50 }

abbrev random : Bytes
random = replicate 32 201

abbrev made : Option (Bytes × List TokenRow)
made = create_api_token digest false 4 input (some random) []

token_runs : Unit {0}
unfolding has_hash create_api_token dual_auth handle_api_key_auth get_api_token_by_hash
token_runs = tt

jwt_refused :
    dual_auth digest (λ t. none) (λ u. true) 10 [] (bytes "Bearer abc") ≡ denied invalid_jwt
unfolding token_runs
jwt_refused = refl

abbrev token : Bytes
token = elim made [ none ↦ [] | some (t, rows) ↦ t ]

abbrev rows_after : List TokenRow
rows_after = elim made [ none ↦ [] | some (t, rows) ↦ rows ]

dual_auth-create_api_token_example :
    dual_auth digest (λ t. none) (λ u. true) 10 rows_after (bytes "Bearer " ++ token)
    ≡ granted 4 (some ("files:read" ∷ []))
unfolding token_runs
dual_auth-create_api_token_example =
    dual_auth-create_api_token digest false (λ t. none) (λ u. true) 10 4 input random [] rows_after
      token refl refl refl
