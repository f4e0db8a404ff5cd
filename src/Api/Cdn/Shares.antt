-- ===== src/Api/Cdn/Shares.antt =====
-- `CreateShareHandler` and `DeleteShareHandler` of internal/api/cdn.go, with `GenerateShareToken` and
-- their queries (sql/queries/file_shares.sql).
use file_cheap.Prelude.{ℕ, Bool, not, Option, none, some, [], ◌++◌, if◌then◌else◌, take}
use file_cheap.Prelude.Key.{◌==◌, nat_key}
use file_cheap.Prelude.Bytes.{Bytes, bytes, bytes_key}
use file_cheap.Prelude.Int.{ℤ, ◌+ℤ◌}
use file_cheap.Prelude.Map.{Map, lookup, insert, delete}
use file_cheap.Prelude.Action.{Step, ◌>>=◌, ◌>>◌, answer, or_refuse, require, modify, look}
use file_cheap.Encoding.{raw_url}
use file_cheap.Api.Cdn.{
  SharedFile, Share, Cdn, CdnQuery, get_file_query, create_share_query, delete_share_query,
  has_token,
}

pub data ShareError : Type 0 where
  unauthorized invalid_file_id file_not_found not_hashed no_token not_created : ShareError
  invalid_share_id share_not_found : ShareError

-- A request for a new share: the user that is logged in, the id of the path if it can be parsed, what
-- could be decoded of the body, the duration `expires` if it can be parsed; and the clock, the queries
-- that fail, the random bytes for the token, the hash of the password by bcrypt, and the id of the
-- new row.
pub record ShareRequest : Type 0 where
  pub user_id : Option ℕ
  pub file_id : Option ℕ
  pub password : Bytes
  pub max_downloads : Option ℤ
  pub expires : Option ℤ
  pub now : ℕ
  pub fails : CdnQuery → Bool
  pub random : Option Bytes
  pub hashed : Option Bytes
  pub new_id : ℕ

pub record Shared : Type 0 where
  pub id : ℕ
  pub token : Bytes
  pub share_url : Bytes

-- `GenerateShareToken`.
unfoldable pub generate_share_token : Option Bytes → Option Bytes
generate_share_token random = elim random [
  | none ↦ none
  | some octets ↦ some (take 43 (raw_url octets))
]

-- `GetFile`.
unfoldable pub get_shared_file : ℕ → Map ℕ SharedFile → Option SharedFile
get_shared_file id files = elim (lookup id files) [
  | none ↦ none
  | some file ↦ if file.is_deleted then none else some file
]

-- `CreateFileShare`, which fails on an id or a token that is there.
unfoldable pub create_file_share : ℕ → Share → Map ℕ Share → Option (Map ℕ Share)
create_file_share id share shares =
    if has_token share.token shares
    then none
    else elim (lookup id shares) [ some taken ↦ none | none ↦ some (insert id share shares) ]

-- `DeleteFileShare`.
unfoldable pub delete_file_share : ℕ → ℕ → Map ℕ SharedFile → Map ℕ Share → Map ℕ Share
delete_file_share id user_id files shares = elim (lookup id shares) [
  | none ↦ shares
  | some share ↦ elim (lookup share.file_id files) [
    | none ↦ shares
    | some file ↦ if file.user_id == user_id then delete id shares else shares
  ]
]

-- `CreateShareHandler`.
unfoldable pub create_share_handler :
    {S : Type 0} → Bytes → ShareRequest → Step (Cdn S) ShareError Shared
create_share_handler base_url req = do
  user_id ← or_refuse req.user_id unauthorized
  file_id ← or_refuse req.file_id invalid_file_id
  found ← look (λ cdn. if req.fails get_file_query then none else get_shared_file file_id cdn.files)
  file ← or_refuse found file_not_found
  require (file.user_id == user_id) file_not_found
  hash ←
      or_refuse
        (if req.password == []
          then some none
          else elim req.hashed [ none ↦ none | some h ↦ some (some h) ])
        not_hashed
  token ← or_refuse (generate_share_token req.random) no_token
  let share : Share = record {
    file_id = file_id;
    token = token;
    expires_at = elim req.expires [ none ↦ none | some d ↦ some (ℤ.pos req.now +ℤ d) ];
    allowed_transforms = [];
    access_count = 0;
    password_hash = hash;
    max_downloads = req.max_downloads;
    download_count = 0;
  }
  inserted ← look (λ cdn.
      if req.fails create_share_query then none else create_file_share req.new_id share cdn.shares)
  shares ← or_refuse inserted not_created
  modify (λ cdn. record cdn { shares = shares })
  answer (record {
    id = req.new_id;
    token = token;
    share_url = base_url ++ bytes "/cdn/" ++ token ++ bytes "/_/" ++ file.filename;
  })

-- `DeleteShareHandler`.
unfoldable pub delete_share_handler :
    {S : Type 0} → Option ℕ → Option ℕ → (CdnQuery → Bool) → Step (Cdn S) ShareError (Unit {0})
delete_share_handler user share fails = do
  user_id ← or_refuse user unauthorized
  id ← or_refuse share invalid_share_id
  require (not (fails delete_share_query)) share_not_found
  modify (λ cdn. record cdn { shares = delete_file_share id user_id cdn.files cdn.shares })
