-- ===== src/Worker/FileJob/Registry.antt =====
-- The handlers that the program for jobs registers (cmd/worker/main.go, cmd/worker/video.go), and a
-- run of jobs one after the other.
use file_cheap.Prelude.{ℕ, Bool, Option, List, [], ◌∷◌}
use file_cheap.Prelude.Bytes.{Bytes}
use file_cheap.Worker.FileJob.{Query, Env, World}
use file_cheap.Worker.FileJob.Action.{Action}
use file_cheap.Worker.FileJob.Payloads.{
  QualityPayload, ThumbnailPayload, ResizePayload, WatermarkPayload, ConvertPayload,
  PdfThumbnailPayload, MetadataPayload, VideoThumbnailPayload, VideoTranscodePayload,
}
use file_cheap.Worker.FileJob.Handlers.{
  thumbnail_handler, resize_handler, webp_handler, watermark_handler, pdf_thumbnail_handler,
  metadata_handler, optimize_handler, convert_handler, video_thumbnail_handler,
}
use file_cheap.Worker.FileJob.Transcode.{video_transcode_handler}

-- A job of the queue: its type, with its payload as decoded.
pub data Request : Type 0 where
  thumbnail : Option ThumbnailPayload → Request
  resize : Option ResizePayload → Request
  webp optimize : Option QualityPayload → Request
  watermark : Option WatermarkPayload → Request
  pdf_thumbnail : Option PdfThumbnailPayload → Request
  metadata : Option MetadataPayload → Request
  convert : Option ConvertPayload → Request
  video_thumbnail : Option VideoThumbnailPayload → Request
  video_transcode : Option VideoTranscodePayload → Request

module _ {S : Type 0} (show_id : ℕ → Bytes) where
  abbrev pub handle : Env S → Request → Action S (Unit {0})
  handle env (thumbnail decoded) = thumbnail_handler show_id env decoded
  handle env (resize decoded) = resize_handler show_id env decoded
  handle env (webp decoded) = webp_handler show_id env decoded
  handle env (optimize decoded) = optimize_handler show_id env decoded
  handle env (watermark decoded) = watermark_handler show_id env decoded
  handle env (pdf_thumbnail decoded) = pdf_thumbnail_handler show_id env decoded
  handle env (metadata decoded) = metadata_handler show_id env decoded
  handle env (convert decoded) = convert_handler show_id env decoded
  handle env (video_thumbnail decoded) = video_thumbnail_handler show_id env decoded
  handle env (video_transcode decoded) = video_transcode_handler show_id env decoded

  -- The jobs one after the other, each with the queries that fail while it runs.
  abbrev pub handle_all : Env S → List ((Query → Bool) × Request) → World S → World S
  handle_all env [] w = w
  handle_all env ((fails, request) ∷ requests) w =
      handle_all env requests (handle (record env { fails = fails }) request w).1
