-- ===== src/Worker/FileJob/Handlers.antt =====
-- internal/worker/handlers.go: the handlers of the jobs. `decoded` is what `UnmarshalPayload` gives,
-- and `show_id` prints the id of a file. Only the handlers for thumbnails and for resizing tell the
-- dispatcher of webhooks.
use file_cheap.Prelude.{ℕ, Bool, Option, none, some, ◌++◌, ◌||◌, if◌then◌else◌}
use file_cheap.Prelude.Bytes.{Bytes, bytes, bytes_key}
use file_cheap.Prelude.Int.{ℤ, leb_ℤ}
use file_cheap.Prelude.Key.{◌==◌}
use file_cheap.Worker.FileJob.{Failure, invalid_payload, invalid_file, File, no_options, Env}
use file_cheap.Worker.FileJob.Action.{Action, permanent, ◌>>=◌, ◌>>◌, answer, or_stop}
use file_cheap.Worker.FileJob.Payloads.{
  QualityPayload, ThumbnailPayload, ResizePayload, WatermarkPayload, ConvertPayload,
  PdfThumbnailPayload, MetadataPayload, VideoThumbnailPayload,
}
use file_cheap.Worker.FileJob.Steps.{
  build_variant_key, mark_job_running, mark_job_completed, mark_job_failed, dispatch_completed,
  dispatch_failed, get_file, download, must_get, process, upload, create_variant, complete_file,
}

-- The payload, or an error that is not tried again.
abbrev pub unmarshal : {S A : Type 0} → Option A → Action S A
unmarshal decoded = or_stop decoded invalid_payload permanent (λ _. answer tt)

-- A file that is not what the handler is for: the job is marked, and the error is permanent.
abbrev pub check_file : {S : Type 0} → Bool → (Failure → Action S (Unit {0})) → Action S (Unit {0})
check_file is_right = or_stop (if is_right then some tt else none) invalid_file permanent

-- The extension of a page's picture, and that of a video's.
abbrev pub page_extension : Bytes → Bytes
page_extension format =
    if format == bytes "jpeg" || format == bytes "jpg" then bytes "jpg" else bytes "png"

abbrev pub frame_extension : Bytes → Bytes
frame_extension format = if format == bytes "png" then bytes "png" else bytes "jpg"

-- The place in the video, in percent.
abbrev pub page_percent : ℤ → ℤ
page_percent percent = if leb_ℤ percent (ℤ.pos 0) then ℤ.pos 10 else percent

-- The job is marked as failed, and the dispatcher is told.
abbrev pub fail_loudly :
    {S : Type 0} → Env S → Option ℕ → File → ℕ → Bytes → Failure → Action S (Unit {0})
fail_loudly env job_id file file_id job_type failure = do
  mark_job_failed env job_id failure
  dispatch_failed env file file_id job_type failure

module _ {S : Type 0} (show_id : ℕ → Bytes) (env : Env S) where
  unfoldable pub thumbnail_handler : Option ThumbnailPayload → Action S (Unit {0})
  thumbnail_handler decoded = do
    payload ← unmarshal decoded
    mark_job_running env payload.job_id
    file ← get_file env (mark_job_failed env payload.job_id) payload.file_id
    let failed = fail_loudly env payload.job_id file payload.file_id (bytes "thumbnail")
    content ← download env failed file.storage_key
    processor ← must_get env (bytes "thumbnail")
    let options = record no_options {
      width = payload.width;
      height = payload.height;
      quality = payload.quality;
      position = payload.position;
    }
    result ← process processor (some options) content failed
    let key = build_variant_key show_id payload.file_id (bytes "thumbnail") (bytes "thumb.jpg")
    upload env failed key result
    create_variant env failed payload.file_id (bytes "thumbnail") key result
    complete_file env failed payload.file_id
    mark_job_completed env payload.job_id
    dispatch_completed env file payload.file_id (bytes "thumbnail") key

  unfoldable pub resize_handler : Option ResizePayload → Action S (Unit {0})
  resize_handler decoded = do
    payload ← unmarshal decoded
    mark_job_running env payload.job_id
    file ← get_file env (mark_job_failed env payload.job_id) payload.file_id
    let failed = fail_loudly env payload.job_id file payload.file_id (bytes "resize")
    content ← download env failed file.storage_key
    processor ← must_get env (bytes "resize")
    let options = record no_options {
      width = payload.width;
      height = payload.height;
      quality = payload.quality;
      variant_type = payload.variant_type;
    }
    result ← process processor (some options) content failed
    let filename = payload.variant_type ++ bytes ".jpg"
    let key = build_variant_key show_id payload.file_id payload.variant_type filename
    upload env failed key result
    create_variant env failed payload.file_id payload.variant_type key result
    complete_file env failed payload.file_id
    mark_job_completed env payload.job_id
    dispatch_completed env file payload.file_id (bytes "resize") key

  unfoldable pub webp_handler : Option QualityPayload → Action S (Unit {0})
  webp_handler decoded = do
    payload ← unmarshal decoded
    mark_job_running env payload.job_id
    let failed = mark_job_failed env payload.job_id
    file ← get_file env failed payload.file_id
    content ← download env failed file.storage_key
    processor ← must_get env (bytes "webp")
    result ←
        process processor (some (record no_options { quality = payload.quality })) content failed
    let key = build_variant_key show_id payload.file_id (bytes "webp") (bytes "converted.webp")
    upload env failed key result
    create_variant env failed payload.file_id (bytes "webp") key result
    complete_file env failed payload.file_id
    mark_job_completed env payload.job_id

  unfoldable pub watermark_handler : Option WatermarkPayload → Action S (Unit {0})
  watermark_handler decoded = do
    payload ← unmarshal decoded
    mark_job_running env payload.job_id
    let failed = mark_job_failed env payload.job_id
    file ← get_file env failed payload.file_id
    content ← download env failed file.storage_key
    processor ← must_get env (bytes "watermark")
    let options = record no_options {
      variant_type = payload.text;
      fit = payload.position;
      quality = payload.opacity_percent;
      width = payload.font_size;
    }
    result ← process processor (some options) content failed
    let key =
        build_variant_key show_id payload.file_id (bytes "watermarked") (bytes "watermarked.jpg")
    upload env failed key result
    create_variant env failed payload.file_id (bytes "watermarked") key result
    complete_file env failed payload.file_id
    mark_job_completed env payload.job_id

  unfoldable pub pdf_thumbnail_handler : Option PdfThumbnailPayload → Action S (Unit {0})
  pdf_thumbnail_handler decoded = do
    payload ← unmarshal decoded
    mark_job_running env payload.job_id
    let failed = mark_job_failed env payload.job_id
    file ← get_file env failed payload.file_id
    check_file (file.content_type == bytes "application/pdf") failed
    content ← download env failed file.storage_key
    processor ← must_get env (bytes "pdf_thumbnail")
    let options = record no_options {
      width = payload.width;
      height = payload.height;
      quality = payload.quality;
      format = payload.format;
      page = payload.page;
    }
    result ← process processor (some options) content failed
    let filename = bytes "preview." ++ page_extension payload.format
    let key = build_variant_key show_id payload.file_id (bytes "pdf_preview") filename
    upload env failed key result
    create_variant env failed payload.file_id (bytes "pdf_preview") key result
    complete_file env failed payload.file_id
    mark_job_completed env payload.job_id

  -- No row of `file_variants` is made.
  unfoldable pub metadata_handler : Option MetadataPayload → Action S (Unit {0})
  metadata_handler decoded = do
    payload ← unmarshal decoded
    mark_job_running env payload.job_id
    let failed = mark_job_failed env payload.job_id
    file ← get_file env failed payload.file_id
    content ← download env failed file.storage_key
    processor ← must_get env (bytes "metadata")
    result ← process processor none content failed
    upload env failed
        (build_variant_key show_id payload.file_id (bytes "metadata") (bytes "metadata.json"))
        result
    mark_job_completed env payload.job_id

  unfoldable pub optimize_handler : Option QualityPayload → Action S (Unit {0})
  optimize_handler decoded = do
    payload ← unmarshal decoded
    mark_job_running env payload.job_id
    let failed = mark_job_failed env payload.job_id
    file ← get_file env failed payload.file_id
    content ← download env failed file.storage_key
    processor ← must_get env (bytes "optimize")
    result ←
        process processor (some (record no_options { quality = payload.quality })) content failed
    let key = build_variant_key show_id payload.file_id (bytes "optimized") (bytes "optimized.jpg")
    upload env failed key result
    create_variant env failed payload.file_id (bytes "optimized") key result
    complete_file env failed payload.file_id
    mark_job_completed env payload.job_id

  -- The type of the variant is the format itself, and the status of the file stays.
  unfoldable pub convert_handler : Option ConvertPayload → Action S (Unit {0})
  convert_handler decoded = do
    payload ← unmarshal decoded
    mark_job_running env payload.job_id
    let failed = mark_job_failed env payload.job_id
    file ← get_file env failed payload.file_id
    content ← download env failed file.storage_key
    processor ← must_get env (bytes "convert")
    let options = record no_options { format = payload.format; quality = payload.quality }
    result ← process processor (some options) content failed
    let filename = bytes "converted." ++ payload.format
    let key = build_variant_key show_id payload.file_id (bytes "converted") filename
    upload env failed key result
    create_variant env failed payload.file_id payload.format key result
    mark_job_completed env payload.job_id

  unfoldable pub video_thumbnail_handler : Option VideoThumbnailPayload → Action S (Unit {0})
  video_thumbnail_handler decoded = do
    payload ← unmarshal decoded
    mark_job_running env payload.job_id
    let failed = mark_job_failed env payload.job_id
    file ← get_file env failed payload.file_id
    content ← download env failed file.storage_key
    processor ← must_get env (bytes "video_thumbnail")
    let options = record no_options {
      width = payload.width;
      height = payload.height;
      quality = payload.quality;
      format = payload.format;
      page = page_percent payload.at_percent;
    }
    result ← process processor (some options) content failed
    let filename = bytes "thumbnail." ++ frame_extension payload.format
    let key = build_variant_key show_id payload.file_id (bytes "video_thumbnail") filename
    upload env failed key result
    create_variant env failed payload.file_id (bytes "video_thumbnail") key result
    complete_file env failed payload.file_id
    mark_job_completed env payload.job_id
