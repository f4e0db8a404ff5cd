-- ===== src/Api/ChunkedUpload/Init.antt =====
-- The start of an upload: `InitChunkedUploadHandler` of internal/api/chunked_upload.go.
use file_cheap.Prelude.{
  ℕ, ◌*◌, ◌⊎◌, inl, inr, Bool, false, ◌&&◌, ◌||◌, Option, none, some, [], ◌∷◌, ◌++◌, if◌then◌else◌,
}
use file_cheap.Prelude.Key.{◌==◌, nat_key}
use file_cheap.Prelude.Bytes.{Bytes, bytes, bytes_key}
use file_cheap.Prelude.Int.{ℤ, pos, ◌+ℤ◌, ◌-ℤ◌, ltb_ℤ, leb_ℤ, wrap64, quot_ℤ}
use file_cheap.Prelude.Map.{insert}
use file_cheap.Billing.Limits.{SubscriptionTier, get_tier_limits}
use file_cheap.Processor.Video.{is_video_type}
use file_cheap.Api.ChunkedUpload.{
  Session, World, ApiError, unauthorized, invalid_request, missing_required_fields,
  file_limit_reached, video_storage_quota_exceeded, file_too_large,
}

pub record InitUploadRequest : Type 0 where
  pub filename : Bytes
  pub content_type : Bytes
  pub total_size : ℤ

-- The billing of the request's context.
pub record BillingInfo : Type 0 where
  pub tier : SubscriptionTier
  pub files_limit : ℤ
  pub files_count : ℤ
  pub max_file_size : ℤ

pub record InitUploadResponse : Type 0 where
  pub upload_id : Bytes
  pub chunk_size : ℤ
  pub chunks_total : ℤ

-- The refusal that the billing gives, if any; `usage` is the answer of `GetUserVideoStorageUsage`.
unfoldable pub over_limit : BillingInfo → Option ℤ → InitUploadRequest → Option ApiError
unfolding get_tier_limits is_video_type
over_limit b usage req =
    let limits = get_tier_limits b.tier in
    let is_video = is_video_type req.content_type in
    let max_size = if is_video then limits.max_video_size else b.max_file_size in
    let over_quota : Bool = elim usage [
      | none ↦ false
      | some used ↦ ltb_ℤ limits.video_storage_bytes (wrap64 (used +ℤ req.total_size))
    ] in
    if leb_ℤ (pos 0) b.files_limit && leb_ℤ b.files_limit b.files_count
    then some file_limit_reached
    else if is_video && over_quota
    then some video_storage_quota_exceeded
    else if ltb_ℤ max_size req.total_size
    then some file_too_large
    else none

-- Without billing there is no limit.
unfoldable pub refusal : Option BillingInfo → Option ℤ → InitUploadRequest → Option ApiError
unfolding over_limit
refusal none usage req = none
refusal (some b) usage req = over_limit b usage req

abbrev pub default_chunk_size : ℤ
default_chunk_size = pos (5 * 1024 * 1024)

-- The number of chunks, in int64.
abbrev pub chunks_of : ℤ → ℤ → ℤ
chunks_of total_size chunk_size =
    wrap64 (quot_ℤ (wrap64 (wrap64 (total_size +ℤ chunk_size) -ℤ pos 1)) chunk_size)

abbrev pub chunk_size_or_default : ℤ → ℤ
chunk_size_or_default chunk_size =
    if leb_ℤ chunk_size (pos 0) then default_chunk_size else chunk_size

-- The caller of the handler that starts an upload, by number and by text, and the new id.
pub record Caller : Type 0 where
  pub user_id : ℕ
  pub user_text : Bytes
  pub upload_id : Bytes

unfoldable pub new_session : ℤ → Caller → InitUploadRequest → ℕ → Session
new_session chunk_size caller req now = record {
  id = caller.upload_id;
  user_id = caller.user_id;
  filename = req.filename;
  content_type = req.content_type;
  total_size = req.total_size;
  chunks_total = chunks_of req.total_size (chunk_size_or_default chunk_size);
  chunks_loaded = [];
  storage_key =
      bytes "uploads/" ++ (caller.user_text ++ (b'/' ∷ caller.upload_id ++ (b'/' ∷ req.filename)));
  created_at = now;
}

-- `InitChunkedUploadHandler`; `chunk_size` is that of the configuration.
unfoldable pub init_chunked_upload_handler :
    {S : Type 0}
    → ℤ
    → Option Caller
    → Option InitUploadRequest
    → Option BillingInfo
    → Option ℤ
    → ℕ
    → World S
    → (ApiError ⊎ InitUploadResponse) × World S
unfolding refusal new_session
init_chunked_upload_handler chunk_size none body billing usage now w = (inl unauthorized, w)
init_chunked_upload_handler chunk_size (some caller) none billing usage now w =
    (inl invalid_request, w)
init_chunked_upload_handler chunk_size (some caller) (some req) billing usage now w =
    let session = new_session chunk_size caller req now in
    if req.filename == [] || leb_ℤ req.total_size (pos 0)
    then (inl missing_required_fields, w)
    else (elim (refusal billing usage req) [
      | some e ↦ (inl e, w)
      | none ↦ (
        inr record {
          upload_id = caller.upload_id;
          chunk_size = chunk_size_or_default chunk_size;
          chunks_total = session.chunks_total;
        },
        record w { sessions = insert session.id session w.sessions },
      )
    ])
