-- ===== src/Worker/FileJob/Transcode.antt =====
-- VideoTranscodeHandler of internal/worker/handlers.go, which counts the seconds of a video and may
-- delete the original (sql/queries/usage.sql, sql/queries/files.sql).
use file_cheap.Prelude.{ℕ, Option, none, some, [], ◌++◌, if◌then◌else◌}
use file_cheap.Prelude.Bytes.{Bytes, bytes, bytes_key}
use file_cheap.Prelude.Int.{ℤ, ltb_ℤ, ◌+ℤ◌, ◌-ℤ◌, ◌*ℤ◌, quot_ℤ, wrap64}
use file_cheap.Prelude.Key.{◌==◌, nat_key}
use file_cheap.Prelude.Map.{Map, lookup, insert}
use file_cheap.Worker.FileJob.{
  File, World, no_options, ensure_usage_query, increment_usage_query, mark_deleted_query, Env,
}
use file_cheap.Worker.FileJob.Action.{Action, ok, ◌>>=◌, ◌>>◌}
use file_cheap.Worker.FileJob.Payloads.{VideoTranscodePayload}
use file_cheap.Worker.FileJob.Steps.{
  build_variant_key, update, mark_job_running, mark_job_completed, mark_job_failed, get_file,
  download, must_get, process, upload, create_variant, complete_file,
}
use file_cheap.Worker.FileJob.Handlers.{unmarshal}

-- `EnsureMonthlyUsageRecord` and `IncrementVideoSecondsProcessed`; a row needs a user.
unfoldable pub ensure_usage : Option ℕ → Map ℕ ℤ → Map ℕ ℤ
ensure_usage none usage = usage
ensure_usage (some user) usage = elim (lookup user usage) [
  | none ↦ insert user (ℤ.pos 0) usage
  | some seconds ↦ usage
]

unfoldable pub increment_usage : Option ℕ → ℤ → Map ℕ ℤ → Map ℕ ℤ
increment_usage none seconds usage = usage
increment_usage (some user) seconds usage = update (λ n. n +ℤ seconds) user usage

-- `MarkOriginalDeleted`.
abbrev pub without_original : File → File
without_original file = record file { storage_key = [] }

-- The extension of the video, and its quality from the `CRF`, in the arithmetic of an int.
abbrev pub video_extension : Bytes → Bytes
video_extension format = if format == [] then bytes "mp4" else format

abbrev pub video_quality : ℤ → ℤ
video_quality crf = wrap64 (ℤ.pos 100 -ℤ quot_ℤ (wrap64 (crf *ℤ ℤ.pos 100)) (ℤ.pos 51))

module _ {S : Type 0} (env : Env S) where
  -- The errors of the two queries are logged.
  unfoldable pub track_usage : Option ℕ → ℤ → Action S (Unit {0})
  track_usage user seconds w =
      let ensured = if env.fails ensure_usage_query then w.usage else ensure_usage user w.usage in
      let counted =
        if env.fails increment_usage_query then ensured else increment_usage user seconds ensured in
      (ok tt, record w { usage = if ltb_ℤ (ℤ.pos 0) seconds then counted else w.usage })

  -- The original is deleted if its owner wants it, and its row says so if that succeeds.
  unfoldable pub remove_original : ℕ → Bytes → World S → World S
  remove_original file_id key w =
      let (is_removed, objects) = env.storage.remove key w.objects in
      let marked =
        if env.fails mark_deleted_query then w.files else update without_original file_id w.files in
      record w { objects = objects; files = if is_removed then marked else w.files }

  unfoldable pub delete_original : ℕ → File → Action S (Unit {0})
  delete_original file_id file w = (
    ok tt,
    elim (env.deletes_originals file.user_id) [
      | none ↦ w
      | some wanted ↦
          if wanted
          then (if file.storage_key == [] then w else remove_original file_id file.storage_key w)
          else w
    ],
  )

module _ {S : Type 0} (show_id : ℕ → Bytes) (env : Env S) where
  unfoldable pub video_transcode_handler : Option VideoTranscodePayload → Action S (Unit {0})
  video_transcode_handler decoded = do
    payload ← unmarshal decoded
    mark_job_running env payload.job_id
    let failed = mark_job_failed env payload.job_id
    file ← get_file env failed payload.file_id
    content ← download env failed file.storage_key
    processor ← must_get env (bytes "video_transcode")
    let options = record no_options {
      quality = video_quality payload.crf;
      format = payload.output_format;
      height = payload.max_resolution;
      variant_type = payload.variant_type;
    }
    result ← process processor (some options) content failed
    let filename = bytes "video." ++ video_extension payload.output_format
    let key = build_variant_key show_id payload.file_id payload.variant_type filename
    upload env failed key result
    create_variant env failed payload.file_id payload.variant_type key result
    complete_file env failed payload.file_id
    track_usage env file.user_id result.seconds
    delete_original env payload.file_id file
    mark_job_completed env payload.job_id
