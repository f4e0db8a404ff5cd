-- ===== src/Api/ChunkedUpload.antt =====
-- internal/api/chunked_upload.go: the sessions of uploads in chunks, and the handlers that start one,
-- take a chunk, put the chunks together, report on a session, cancel it and remove the old ones.
-- The storage is any storage. A request comes with its body decoded (`none` if that fails), and
-- with what the queries answer.
pub mod Init
pub mod Chunks
pub mod Joined
pub mod Progress
pub mod Sent
pub mod Completed
pub mod Started
use file_cheap.Prelude.{
  ℕ, zero, suc, ◌+◌, ◌*◌, ◌≡◌, ◌⊎◌, inl, inr, Bool, true, false, not, ◌&&◌, ◌||◌, Option, none,
  some, List, [], ◌∷◌, ◌++◌, ltb, nat_beq, if◌then◌else◌, length,
}
use file_cheap.Prelude.Key.{◌==◌, nat_key}
use file_cheap.Prelude.Bytes.{Bytes, bytes, bytes_key, has_prefix}
use file_cheap.Prelude.Decimal.{decimal}
use file_cheap.Prelude.Int.{
  ℤ, pos, negsuc, ◌+ℤ◌, ◌-ℤ◌, ltb_ℤ, leb_ℤ, eq_ℤ, wrap64, quot_ℤ, pos_part,
}
use file_cheap.Prelude.Map.{Map, lookup, insert, delete}
use file_cheap.Billing.Limits.{SubscriptionTier, get_tier_limits}
use file_cheap.Processor.Video.{is_video_type}
use file_cheap.Storage.{Storage}
use file_cheap.Worker.Enqueue.{
  JobType, thumbnail, pdf_thumbnail, video_thumbnail, Tasks, Answers, enqueue_with_tracking,
}

pub record Session : Type 0 where
  pub id : Bytes
  pub user_id : ℕ
  pub filename : Bytes
  pub content_type : Bytes
  pub total_size : ℤ
  pub chunks_total : ℤ
  pub chunks_loaded : Map ℕ Bool
  pub storage_key : Bytes
  pub created_at : ℕ

-- A row of `files`, as `CreateFile` is given it.
pub record FileRow : Type 0 where
  pub id : ℕ
  pub user_id : ℕ
  pub filename : Bytes
  pub content_type : Bytes
  pub size_bytes : ℤ
  pub storage_key : Bytes

pub record World (S : Type 0) : Type 0 where
  pub sessions : Map Bytes Session
  pub objects : S
  pub files : List FileRow
  pub tasks : Tasks

-- The errors, by their codes.
pub data ApiError : Type 0 where
  unauthorized invalid_request missing_required_fields file_limit_reached : ApiError
  video_storage_quota_exceeded file_too_large invalid_chunk_index : ApiError
  session_not_found forbidden chunk_out_of_range read_chunk_failed internal assemble_failed :
      ApiError

-- The key of a chunk.
abbrev pub chunk_key : Bytes → ℕ → Bytes
chunk_key storage_key i = storage_key ++ (bytes ".chunk." ++ decimal i)

-- The job for a file of this type.
unfoldable pub job_for : Bytes → Option JobType
unfolding is_video_type
job_for content_type =
    if has_prefix (bytes "image/") content_type
    then some thumbnail
    else if content_type == bytes "application/pdf"
    then some pdf_thumbnail
    else if is_video_type content_type
    then some video_thumbnail
    else none

abbrev pub or_octet_stream : Bytes → Bytes
or_octet_stream [] = bytes "application/octet-stream"
or_octet_stream (c ∷ s) = c ∷ s

-- The id in the answer: that of the file, or without a database that of the session.
pub data FileId : Type 0 where
  of_file : ℕ → FileId
  of_session : Bytes → FileId

-- The database and the broker: what `CreateFile` answers, whether there is a broker, and the rest.
pub record Database : Type 0 where
  pub file_id : Option ℕ
  pub has_broker : Bool
  pub answers : Answers

pub record ChunkRequest : Type 0 where
  pub user_id : Option ℕ
  pub upload_id : Bytes
  pub chunk : Option ℤ
  pub body : Option Bytes

pub record UploadChunkResponse : Type 0 where
  pub upload_id : Bytes
  pub chunk_index : ℕ
  pub chunks_loaded : ℕ
  pub chunks_total : ℤ
  pub complete : Bool
  pub file_id : Option FileId

pub record UploadStatus : Type 0 where
  pub upload_id : Bytes
  pub filename : Bytes
  pub total_size : ℤ
  pub chunks_total : ℤ
  pub chunks_loaded : ℕ
  pub complete : Bool

abbrev pub is_complete : Session → Bool
is_complete session = eq_ℤ (pos (length session.chunks_loaded)) session.chunks_total

-- The session that a signed-in user may use.
unfoldable pub session_of : {S : Type 0} → Option ℕ → Bytes → World S → ApiError ⊎ Session
session_of none upload_id w = inl unauthorized
session_of (some user_id) upload_id w = elim (lookup upload_id w.sessions) [
  | none ↦ inl session_not_found
  | some session ↦ if nat_beq session.user_id user_id then inr session else inl forbidden
]

-- `GetUploadStatusHandler`.
unfoldable pub get_upload_status_handler :
    {S : Type 0} → Option ℕ → Bytes → World S → ApiError ⊎ UploadStatus
unfolding session_of
get_upload_status_handler user_id upload_id w = elim (session_of user_id upload_id w) [
  | inl e ↦ inl e
  | inr session ↦ inr record {
    upload_id = upload_id;
    filename = session.filename;
    total_size = session.total_size;
    chunks_total = session.chunks_total;
    chunks_loaded = length session.chunks_loaded;
    complete = is_complete session;
  }
]
