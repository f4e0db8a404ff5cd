-- ===== src/Worker/FileJob/Outcome.antt =====
-- How the run of a job ends, and what its row then says (cmd/worker/main.go,
-- internal/worker/handlers.go).
use file_cheap.Prelude.{◌≡◌, ℕ, false, Option, none, some}
use file_cheap.Prelude.Bytes.{Bytes}
use file_cheap.Prelude.Key.{nat_key}
use file_cheap.Prelude.Map.{lookup}
use file_cheap.Worker.FileJob.{
  Job, World, mark_running_query, mark_completed_query, mark_failed_query, Env,
}
use file_cheap.Worker.FileJob.Payloads.{
  ThumbnailPayload, ResizePayload, QualityPayload, WatermarkPayload, ConvertPayload,
  PdfThumbnailPayload, MetadataPayload, VideoThumbnailPayload, VideoTranscodePayload,
}
use file_cheap.Worker.FileJob.Handlers.{
  thumbnail_handler, resize_handler, webp_handler, watermark_handler, optimize_handler,
  convert_handler, pdf_thumbnail_handler, metadata_handler, video_thumbnail_handler,
}
use file_cheap.Worker.FileJob.Transcode.{video_transcode_handler}
use file_cheap.Worker.FileJob.Leaves.{started, completed_job, row_after, Ends, leaves_rules}
use file_cheap.Worker.FileJob.Registry.{
  Request, thumbnail, resize, webp, watermark, optimize, convert, pdf_thumbnail, metadata,
  video_thumbnail, video_transcode, handle,
}

-- The id of the row for a job, if its payload can be decoded and has a valid one.
abbrev pub job_id_of : Request → Option ℕ
job_id_of (thumbnail none) = none
job_id_of (thumbnail (some p)) = p.job_id
job_id_of (resize none) = none
job_id_of (resize (some p)) = p.job_id
job_id_of (webp none) = none
job_id_of (webp (some p)) = p.job_id
job_id_of (watermark none) = none
job_id_of (watermark (some p)) = p.job_id
job_id_of (optimize none) = none
job_id_of (optimize (some p)) = p.job_id
job_id_of (convert none) = none
job_id_of (convert (some p)) = p.job_id
job_id_of (pdf_thumbnail none) = none
job_id_of (pdf_thumbnail (some p)) = p.job_id
job_id_of (metadata none) = none
job_id_of (metadata (some p)) = p.job_id
job_id_of (video_thumbnail none) = none
job_id_of (video_thumbnail (some p)) = p.job_id
job_id_of (video_transcode none) = none
job_id_of (video_transcode (some p)) = p.job_id

module _ {S : Type 0} (show_id : ℕ → Bytes) (env : Env S) (n : ℕ) (job : Job)
    (h₁ : env.fails mark_running_query ≡ false) (h₂ : env.fails mark_completed_query ≡ false)
    (h₃ : env.fails mark_failed_query ≡ false) where
  thumbnail_Ends :
      (p : ThumbnailPayload)
      → p.job_id ≡ some n
      → Ends n job (thumbnail_handler show_id env (some p))
  unfolding thumbnail_handler
  thumbnail_Ends p e = search leaves_rules depth 40

  resize_Ends :
      (p : ResizePayload) → p.job_id ≡ some n → Ends n job (resize_handler show_id env (some p))
  unfolding resize_handler
  resize_Ends p e = search leaves_rules depth 40

  webp_Ends :
      (p : QualityPayload) → p.job_id ≡ some n → Ends n job (webp_handler show_id env (some p))
  unfolding webp_handler
  webp_Ends p e = search leaves_rules depth 40

  watermark_Ends :
      (p : WatermarkPayload)
      → p.job_id ≡ some n
      → Ends n job (watermark_handler show_id env (some p))
  unfolding watermark_handler
  watermark_Ends p e = search leaves_rules depth 40

  optimize_Ends :
      (p : QualityPayload) → p.job_id ≡ some n → Ends n job (optimize_handler show_id env (some p))
  unfolding optimize_handler
  optimize_Ends p e = search leaves_rules depth 40

  convert_Ends :
      (p : ConvertPayload) → p.job_id ≡ some n → Ends n job (convert_handler show_id env (some p))
  unfolding convert_handler
  convert_Ends p e = search leaves_rules depth 40

  pdf_thumbnail_Ends :
      (p : PdfThumbnailPayload)
      → p.job_id ≡ some n
      → Ends n job (pdf_thumbnail_handler show_id env (some p))
  unfolding pdf_thumbnail_handler
  pdf_thumbnail_Ends p e = search leaves_rules depth 40

  metadata_Ends :
      (p : MetadataPayload) → p.job_id ≡ some n → Ends n job (metadata_handler show_id env (some p))
  unfolding metadata_handler
  metadata_Ends p e = search leaves_rules depth 40

  video_thumbnail_Ends :
      (p : VideoThumbnailPayload)
      → p.job_id ≡ some n
      → Ends n job (video_thumbnail_handler show_id env (some p))
  unfolding video_thumbnail_handler
  video_thumbnail_Ends p e = search leaves_rules depth 40

  video_transcode_Ends :
      (p : VideoTranscodePayload)
      → p.job_id ≡ some n
      → Ends n job (video_transcode_handler show_id env (some p))
  unfolding video_transcode_handler
  video_transcode_Ends p e = search leaves_rules depth 40

  -- A job of any kind that the worker registers, with a row, whose payload can be decoded, leaves that row as its run ends, if
  -- the queries that mark it do not fail: one more attempt in every case; completed after a run
  -- without an error; failed with the failure as its message after a run that stops with an error,
  -- whether it is to be tried again or not; still running after a panic.
  pub handle_ends :
      (request : Request)
      → job_id_of request ≡ some n
      → (w : World S) → lookup n w.jobs ≡ some job
      → lookup n (handle show_id env request w).1.jobs
        ≡ some
            (row_after (completed_job (started job)) (started job) (handle show_id env request w).0)
  handle_ends (thumbnail none) e = cc
  handle_ends (thumbnail (some p)) e = (thumbnail_Ends p e).at
  handle_ends (resize none) e = cc
  handle_ends (resize (some p)) e = (resize_Ends p e).at
  handle_ends (webp none) e = cc
  handle_ends (webp (some p)) e = (webp_Ends p e).at
  handle_ends (watermark none) e = cc
  handle_ends (watermark (some p)) e = (watermark_Ends p e).at
  handle_ends (optimize none) e = cc
  handle_ends (optimize (some p)) e = (optimize_Ends p e).at
  handle_ends (convert none) e = cc
  handle_ends (convert (some p)) e = (convert_Ends p e).at
  handle_ends (pdf_thumbnail none) e = cc
  handle_ends (pdf_thumbnail (some p)) e = (pdf_thumbnail_Ends p e).at
  handle_ends (metadata none) e = cc
  handle_ends (metadata (some p)) e = (metadata_Ends p e).at
  handle_ends (video_thumbnail none) e = cc
  handle_ends (video_thumbnail (some p)) e = (video_thumbnail_Ends p e).at
  handle_ends (video_transcode none) e = cc
  handle_ends (video_transcode (some p)) e = (video_transcode_Ends p e).at
