-- ===== src/Api/Cdn.antt =====
-- Shared files: the rows that internal/api/cdn.go reads and writes, and its queries
-- (sql/queries/file_shares.sql). A goroutine that a handler starts is a task, which is run later
-- (Cdn/Tasks.antt); the handlers are in Cdn/Handler.antt and Cdn/Shares.antt.
pub mod Handler
pub mod Shares
pub mod Adds
pub mod Same
pub mod Access
pub mod Shown
pub mod Counts
pub mod Downloads
pub mod Uncached
pub mod Tasks
use file_cheap.Prelude.{
  ℕ, ◌+◌, ◌-◌, ◌*◌, ◌^◌, Bool, true, false, ◌&&◌, ◌||◌, not, Option, none, some, List, [], ◌∷◌,
  ◌++◌, if◌then◌else◌, ltb,
}
use file_cheap.Prelude.Key.{◌==◌, nat_key}
use file_cheap.Prelude.Bytes.{Bytes, bytes_key}
use file_cheap.Prelude.Int.{ℤ, ltb_ℤ, leb_ℤ}
use file_cheap.Prelude.Map.{Map, lookup, insert}
use file_cheap.Storage.{Storage}
use file_cheap.Worker.FileJob.{Options}

-- A row of `files`, the columns that the CDN reads.
pub record SharedFile : Type 0 where
  pub user_id : ℕ
  pub filename : Bytes
  pub content_type : Bytes
  pub storage_key : Bytes
  pub is_deleted : Bool

-- A row of `file_shares`; no list of allowed transforms is the empty one.
pub record Share : Type 0 where
  pub file_id : ℕ
  pub token : Bytes
  pub expires_at : Option ℤ
  pub allowed_transforms : List Bytes
  pub access_count : ℕ
  pub password_hash : Option Bytes
  pub max_downloads : Option ℤ
  pub download_count : ℕ

-- A row of `transform_cache`.
pub record CacheRow : Type 0 where
  pub file_id : ℕ
  pub cache_key : Bytes
  pub transform_params : Bytes
  pub storage_key : Bytes
  pub content_type : Bytes
  pub size_bytes : ℤ
  pub width : Option ℤ
  pub height : Option ℤ
  pub request_count : ℕ
  pub created_at : ℕ

-- The updates that a goroutine makes, one after the other.
pub data Task : Type 0 where
  count_access : ℕ → Task
  count_download : ℕ → Task
  count_cached : ℕ → Bytes → ℕ → Task

pub record Cdn (S : Type 0) : Type 0 where
  pub files : Map ℕ SharedFile
  pub shares : Map ℕ Share
  pub cache : List CacheRow
  pub objects : S
  pub tasks : List Task

pub data CdnQuery : Type 0 where
  get_share_query limit_query get_cache_query request_count_query create_cache_query : CdnQuery
  get_file_query create_share_query delete_share_query : CdnQuery

-- The file of a share that has not expired, unless it is deleted.
unfoldable pub shared_file : ℕ → Map ℕ SharedFile → Share → Option SharedFile
shared_file now files share =
    if elim share.expires_at [ none ↦ true | some t ↦ ltb_ℤ (ℤ.pos now) t ]
    then elim (lookup share.file_id files) [
      | none ↦ none
      | some file ↦ if file.is_deleted then none else some file
    ]
    else none

-- `GetFileShareByToken`.
unfoldable pub get_file_share_by_token :
    ℕ → Bytes → Map ℕ SharedFile → Map ℕ Share → Option (ℕ × Share × SharedFile)
get_file_share_by_token now token files [] = none
get_file_share_by_token now token files ((id, share) ∷ rest) =
    elim (if share.token == token then shared_file now files share else none) [
      | none ↦ get_file_share_by_token now token files rest
      | some file ↦ some (id, share, file)
    ]

-- The largest INTEGER; a count beyond it is an error of the database.
abbrev pub max_integer : ℕ
max_integer = 2 ^ 31 - 1

unfoldable pub increment : ℕ → ℕ
increment n = if ltb n max_integer then n + 1 else n

-- `IncrementShareAccessCount`.
unfoldable pub increment_share_access_count : ℕ → Map ℕ Share → Map ℕ Share
increment_share_access_count id shares = elim (lookup id shares) [
  | none ↦ shares
  | some share ↦ insert id (record share { access_count = increment share.access_count }) shares
]

-- `IncrementShareDownloadCount`.
unfoldable pub increment_share_download_count : ℕ → Map ℕ Share → Map ℕ Share
increment_share_download_count id shares = elim (lookup id shares) [
  | none ↦ shares
  | some share ↦ insert id (record share { download_count = increment share.download_count }) shares
]

-- `IsShareDownloadLimitReached`; no row is an error, which is `none`.
unfoldable pub is_share_download_limit_reached : ℕ → Map ℕ Share → Option Bool
is_share_download_limit_reached id shares = elim (lookup id shares) [
  | none ↦ none
  | some share ↦ elim share.max_downloads [
    | none ↦ some false
    | some limit ↦ some (leb_ℤ limit (ℤ.pos share.download_count))
  ]
]

-- `GetTransformCache`.
unfoldable pub get_transform_cache : ℕ → Bytes → List CacheRow → Option CacheRow
get_transform_cache file_id key [] = none
get_transform_cache file_id key (row ∷ rows) =
    if row.file_id == file_id && row.cache_key == key
    then some row
    else get_transform_cache file_id key rows

-- `IncrementTransformCacheCount`.
unfoldable pub increment_transform_cache_count : ℕ → Bytes → List CacheRow → List CacheRow
increment_transform_cache_count file_id key [] = []
increment_transform_cache_count file_id key (row ∷ rows) =
    let rest = increment_transform_cache_count file_id key rows in
    if row.file_id == file_id && row.cache_key == key
    then record row { request_count = increment row.request_count } ∷ rest
    else row ∷ rest

-- `GetTransformRequestCount`.
unfoldable pub get_transform_request_count : ℕ → Bytes → List CacheRow → ℕ
unfolding get_transform_cache
get_transform_request_count file_id key rows = elim (get_transform_cache file_id key rows) [
  | none ↦ 0
  | some row ↦ row.request_count
]

-- `CreateTransformCache`: a new row, or one request more for the row that is there.
unfoldable pub create_transform_cache : CacheRow → List CacheRow → List CacheRow
create_transform_cache row rows = elim (get_transform_cache row.file_id row.cache_key rows) [
  | none ↦ row ∷ rows
  | some old ↦ increment_transform_cache_count row.file_id row.cache_key rows
]

-- Whether the unique column holds the token already.
unfoldable pub has_token : Bytes → Map ℕ Share → Bool
has_token token [] = false
has_token token ((id, share) ∷ rest) = share.token == token || has_token token rest

-- `processor.Result`, with the reader that is read to its end; `none` is a reader that fails.
pub record TransformResult : Type 0 where
  pub content : Option Bytes
  pub content_type : Bytes
  pub filename : Bytes
  pub width : ℤ
  pub height : ℤ

-- What is around the handlers: the storage and its presigned URLs, the processors by their names,
-- SHA-256, the comparison of bcrypt, and how an id is printed.
pub record CdnEnv (S : Type 0) : Type 0 where
  pub storage : Storage S
  pub presigned_url : Bytes → Option Bytes
  pub registry : Bytes → Option (Options → Bytes → Option TransformResult)
  pub sha256 : Bytes → Bytes
  pub matches : Bytes → Bytes → Bool
  pub show_id : ℕ → Bytes
