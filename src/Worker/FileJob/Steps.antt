-- ===== src/Worker/FileJob/Steps.antt =====
-- The steps of a handler: the queries, the calls of the storage and of the processor, each with what
-- is done when it fails (internal/worker/handlers.go, internal/processor/registry.go).
use file_cheap.Prelude.{
  ℕ, ◌+◌, Bool, false, ◌||◌, not, Option, none, some, List, [], ◌∷◌, ◌++◌, if◌then◌else◌,
}
use file_cheap.Prelude.Key.{◌==◌, nat_key}
use file_cheap.Prelude.Bytes.{Bytes, bytes, bytes_key}
use file_cheap.Prelude.Int.{wrap32}
use file_cheap.Prelude.Map.{Map, lookup, insert}
use file_cheap.Worker.FileJob.{
  Failure, no_file, no_object, no_processor, not_processed, not_uploaded, not_recorded,
  status_not_updated, FileStatus, JobStatus, File, Job, Variant, Event, processing_completed,
  processing_failed, Options, Processed, Processor, Query, get_file_query, mark_running_query,
  mark_completed_query, mark_failed_query, create_variant_query, update_status_query, Env,
}
use file_cheap.Worker.FileJob.Action.{retryable, permanent, panicked, ok, Action, answer, or_stop}

-- The names of the enum `variant_type`.
abbrev variant_types : List Bytes
variant_types =
    bytes "thumbnail"
    ∷ bytes "sm"
    ∷ bytes "md"
    ∷ bytes "lg"
    ∷ bytes "xl"
    ∷ bytes "og"
    ∷ bytes "twitter"
    ∷ bytes "instagram_square"
    ∷ bytes "instagram_portrait"
    ∷ bytes "instagram_story"
    ∷ bytes "webp"
    ∷ bytes "watermarked"
    ∷ bytes "optimized"
    ∷ bytes "pdf_preview"
    ∷ bytes "video_thumbnail"
    ∷ bytes "video_sprite"
    ∷ bytes "mp4_360p"
    ∷ bytes "mp4_480p"
    ∷ bytes "mp4_720p"
    ∷ bytes "mp4_1080p"
    ∷ bytes "mp4_2160p"
    ∷ bytes "webm_720p"
    ∷ bytes "webm_1080p"
    ∷ bytes "hls_master"
    ∷ bytes "hls_360p"
    ∷ bytes "hls_480p"
    ∷ bytes "hls_720p"
    ∷ bytes "hls_1080p"
    ∷ bytes "video_watermarked"
    ∷ []

unfoldable pub is_among : Bytes → List Bytes → Bool
is_among s [] = false
is_among s (t ∷ ts) = t == s || is_among s ts

unfoldable pub is_variant_type : Bytes → Bool
unfolding is_among
is_variant_type s = is_among s variant_types

-- `buildVariantKey`; the id of a file is printed by `show_id`.
abbrev pub build_variant_key : (ℕ → Bytes) → ℕ → Bytes → Bytes → Bytes
build_variant_key show_id file_id variant_type filename =
    bytes "processed/" ++ (show_id file_id ++ (b'/' ∷ variant_type ++ (b'/' ∷ filename)))

-- An UPDATE of one row, if it is there.
abbrev pub update : {V : Type 0} → (V → V) → ℕ → Map ℕ V → Map ℕ V
update f id rows = elim (lookup id rows) [ none ↦ rows | some row ↦ insert id (f row) rows ]

-- An update of the job's row by a query, which logs an error and goes on; a job may have no row.
unfoldable pub mark : {S : Type 0} → Env S → Query → (Job → Job) → Option ℕ → Action S (Unit {0})
mark env query f none w = (ok tt, w)
mark env query f (some id) w =
    (ok tt, if env.fails query then w else record w { jobs = update f id w.jobs })

-- `markJobRunning`, `markJobCompleted` and `markJobFailed`.
abbrev pub mark_job_running : {S : Type 0} → Env S → Option ℕ → Action S (Unit {0})
mark_job_running env =
    mark env mark_running_query
      (λ job. record job { status = JobStatus.running; attempts = job.attempts + 1 })

abbrev pub mark_job_completed : {S : Type 0} → Env S → Option ℕ → Action S (Unit {0})
mark_job_completed env =
    mark env mark_completed_query (λ job. record job { status = JobStatus.completed })

abbrev pub mark_job_failed : {S : Type 0} → Env S → Option ℕ → Failure → Action S (Unit {0})
mark_job_failed env id failure =
    mark env mark_failed_query
      (λ job. record job { status = JobStatus.failed; error_message = some failure }) id

-- An event is dispatched if there is a dispatcher and the file has an owner.
unfoldable pub dispatch : {S : Type 0} → Env S → File → (ℕ → Event) → Action S (Unit {0})
dispatch env file event w = (
  ok tt,
  elim (if env.has_dispatcher then file.user_id else none) [
    | none ↦ w
    | some user ↦ record w { events = event user ∷ w.events }
  ],
)

-- `dispatchProcessingCompleted` and `dispatchProcessingFailed`.
abbrev pub dispatch_completed :
    {S : Type 0} → Env S → File → ℕ → Bytes → Bytes → Action S (Unit {0})
dispatch_completed env file file_id job_type key =
    dispatch env file (λ user. processing_completed user file_id job_type key)

abbrev pub dispatch_failed : {S : Type 0} → Env S → File → ℕ → Bytes → Failure → Action S (Unit {0})
dispatch_failed env file file_id job_type failure =
    dispatch env file (λ user. processing_failed user file_id job_type failure)

-- The row for a variant, its size in pixels as `int32`.
abbrev pub variant_row : ℕ → Bytes → Bytes → Processed → Variant
variant_row file_id variant_type key result = record {
  file_id = file_id;
  variant_type = variant_type;
  content_type = result.content_type;
  size_bytes = result.size;
  storage_key = key;
  width = wrap32 result.width;
  height = wrap32 result.height;
}

abbrev pub complete_row : File → File
complete_row file = record file { status = FileStatus.completed }

-- Each takes what is done when it fails, `clean`.
module _ {S : Type 0} (env : Env S) (clean : Failure → Action S (Unit {0})) where
  unfoldable pub get_file : ℕ → Action S File
  get_file file_id w =
      or_stop (if env.fails get_file_query then none else lookup file_id w.files) no_file retryable
        clean w

  unfoldable pub download : Bytes → Action S Bytes
  download key w = or_stop (env.storage.download key w.objects) no_object retryable clean w

  -- `GetOrError`.
  unfoldable pub get_or_error : Bytes → Action S Processor
  get_or_error name = or_stop (env.registry name) no_processor permanent clean

  unfoldable pub upload : Bytes → Processed → Action S (Unit {0})
  upload key result w =
      let (is_stored, objects) =
        env.storage.upload key result.content result.content_type result.size w.objects in
      or_stop (if is_stored then some tt else none) not_uploaded retryable clean
        (record w { objects = objects })

  -- `CreateVariant`: the type must be a value of the enum.
  unfoldable pub create_variant : ℕ → Bytes → Bytes → Processed → Action S (Unit {0})
  create_variant file_id variant_type key result w =
      if env.fails create_variant_query || not (is_variant_type variant_type)
      then or_stop none not_recorded retryable clean w
      else (ok tt, record w { variants = variant_row file_id variant_type key result ∷ w.variants })

  -- `UpdateFileStatus` to completed.
  unfoldable pub complete_file : ℕ → Action S (Unit {0})
  complete_file file_id w =
      if env.fails update_status_query
      then or_stop none status_not_updated retryable clean w
      else (ok tt, record w { files = update complete_row file_id w.files })

module _ {S : Type 0} where
  -- `MustGet`.
  unfoldable pub must_get : Env S → Bytes → Action S Processor
  must_get env name = or_stop (env.registry name) no_processor (λ _. panicked) (λ _. answer tt)

  unfoldable pub process :
      Processor → Option Options → Bytes → (Failure → Action S (Unit {0})) → Action S Processed
  process processor options content clean =
      or_stop (processor options content) not_processed permanent clean
