-- ===== src/Auth/ApiToken.antt =====
-- API tokens: `GenerateToken` and `HashToken` of internal/auth/password.go, `CreateAPIToken` of
-- internal/auth/auth.go with its query (sql/queries/api_tokens.sql), and the check of a request by
-- `DualAuthMiddleware` and `handleAPIKeyAuth` of internal/api/middleware.go. SHA-256 is an argument,
-- and so is the check of a JWT. Random bytes are an argument; `none` is an error of `rand.Read`.
pub mod Accepted
use file_cheap.Prelude.{
  ℕ, String, ◌≡◌, Bool, true, false, Option, none, some, List, [], ◌∷◌, ◌++◌, ◌&&◌, ◌||◌, ltb,
  if◌then◌else◌, take, not,
}
use file_cheap.Prelude.Key.{◌==◌}
use file_cheap.Prelude.Bytes.{Bytes, bytes, bytes_key, cut_prefix, has_prefix, trim_prefix}
use file_cheap.Encoding.{raw_url}

abbrev pub api_token_prefix : Bytes
api_token_prefix = bytes "fp_"

pub record TokenRow : Type 0 where
  pub user_id : ℕ
  pub name : String
  pub token_hash : Bytes
  pub token_prefix : Bytes
  pub permissions : List String
  pub expires_at : Option ℕ

abbrev pub unexpired : ℕ → Option ℕ → Bool
unexpired now none = true
unexpired now (some t) = ltb now t

-- `AllPermissions`.
abbrev pub all_permissions : List String
all_permissions =
    "files:read" ∷ "files:write" ∷ "files:delete" ∷ "transform" ∷ "shares:read" ∷ "shares:write"
    ∷ "webhooks:read" ∷ "webhooks:write" ∷ []

-- The refusals, by their messages.
pub data Refusal : Type 0 where
  missing_header invalid_format invalid_api_token invalid_jwt : Refusal

-- How the next handler is called: with a user, and with the permissions of an API token.
pub data Access : Type 0 where
  denied : Refusal → Access
  granted : ℕ → Option (List String) → Access

-- `GetAPITokenByHash`: at most one row has a hash (the column is unique).
unfoldable pub get_api_token_by_hash : (ℕ → Bool) → ℕ → Bytes → List TokenRow → Option TokenRow
get_api_token_by_hash alive now hash [] = none
get_api_token_by_hash alive now hash (row ∷ rows) =
    if row.token_hash == hash && unexpired now row.expires_at && alive row.user_id
    then some row
    else get_api_token_by_hash alive now hash rows

-- Whether the unique column holds the hash already.
unfoldable pub has_hash : Bytes → List TokenRow → Bool
has_hash hash [] = false
has_hash hash (row ∷ rows) = row.token_hash == hash || has_hash hash rows

-- The INSERT of `CreateAPIToken`.
unfoldable pub insert_token : TokenRow → List TokenRow → Option (List TokenRow)
insert_token row rows = if has_hash row.token_hash rows then none else some (row ∷ rows)

pub record CreateApiTokenInput : Type 0 where
  pub name : String
  pub permissions : List String
  pub expires_at : Option ℕ

abbrev pub or_all : List String → List String
or_all [] = all_permissions
or_all (p ∷ ps) = p ∷ ps

module _ (sha256 : Bytes → Bytes) where
  unfoldable pub hash_token : Bytes → Bytes
  hash_token token = raw_url (sha256 token)

  -- The token for the user and the row for the table.
  unfoldable pub new_api_token : ℕ → CreateApiTokenInput → Bytes → Bytes × TokenRow
  unfolding hash_token
  new_api_token user_id input random =
      let raw_token = raw_url random in
      let prefixed = api_token_prefix ++ raw_token in
      (
        prefixed,
        record {
          user_id = user_id;
          name = input.name;
          token_hash = hash_token raw_token;
          token_prefix = take 10 prefixed;
          permissions = or_all input.permissions;
          expires_at = input.expires_at;
        },
      )

  -- `CreateAPIToken`; `fails` is an error of the query that is not a repeated hash.
  unfoldable pub create_api_token :
      Bool → ℕ → CreateApiTokenInput → Option Bytes → List TokenRow → Option (Bytes × List TokenRow)
  unfolding new_api_token insert_token
  create_api_token fails user_id input none rows = none
  create_api_token fails user_id input (some random) rows =
      let (token, row) = new_api_token user_id input random in
      elim (if fails then none else insert_token row rows) [
        | none ↦ none
        | some rows' ↦ some (token, rows')
      ]

  -- `handleAPIKeyAuth`. A failing query is taken for a missing row, as in the source.
  unfoldable pub handle_api_key_auth : (ℕ → Bool) → ℕ → List TokenRow → Bytes → Access
  unfolding hash_token
  handle_api_key_auth alive now rows token =
      elim (get_api_token_by_hash alive now (hash_token (trim_prefix api_token_prefix token))
        rows) [
          | none ↦ denied invalid_api_token
          | some row ↦ granted row.user_id (some row.permissions)
        ]

  -- The token after "Bearer ", if there is one.
  unfoldable pub check_token :
      (Bytes → Option ℕ) → (ℕ → Bool) → ℕ → List TokenRow → Option Bytes → Access
  check_token check_jwt alive now rows none = denied invalid_format
  check_token check_jwt alive now rows (some []) = denied invalid_format
  check_token check_jwt alive now rows (some (c ∷ token)) =
      if has_prefix api_token_prefix (c ∷ token)
      then handle_api_key_auth alive now rows (c ∷ token)
      else (elim (check_jwt (c ∷ token)) [
        | none ↦ denied invalid_jwt
        | some user_id ↦ granted user_id none
      ])

  -- `DualAuthMiddleware`, with the token table there; `check_jwt` gives the user of a valid JWT.
  unfoldable pub dual_auth : (Bytes → Option ℕ) → (ℕ → Bool) → ℕ → List TokenRow → Bytes → Access
  unfolding check_token
  dual_auth check_jwt alive now rows [] = denied missing_header
  dual_auth check_jwt alive now rows (c ∷ header) =
      check_token check_jwt alive now rows (cut_prefix (bytes "Bearer ") (c ∷ header))
