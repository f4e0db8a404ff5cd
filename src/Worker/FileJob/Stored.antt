-- ===== src/Worker/FileJob/Stored.antt =====
-- Every variant that the jobs record has its object (cmd/worker/main.go, internal/worker/handlers.go).
use file_cheap.Prelude.{ℕ, Bool, Option, List, [], ◌∷◌}
use file_cheap.Prelude.Bytes.{Bytes}
use file_cheap.Storage.{StorageLaws}
use file_cheap.Worker.FileJob.{World, Query, Env}
use file_cheap.Worker.FileJob.Payloads.{
  ThumbnailPayload, ResizePayload, QualityPayload, WatermarkPayload, ConvertPayload,
  PdfThumbnailPayload, MetadataPayload, VideoThumbnailPayload, VideoTranscodePayload,
}
use file_cheap.Worker.FileJob.Handlers.{
  thumbnail_handler, resize_handler, webp_handler, watermark_handler, optimize_handler,
  convert_handler, pdf_thumbnail_handler, metadata_handler, video_thumbnail_handler,
}
use file_cheap.Worker.FileJob.Transcode.{video_transcode_handler}
use file_cheap.Worker.FileJob.Originals.{originals_rules}
use file_cheap.Worker.FileJob.Keeps.{AllStored, Keeps, keeps_rules}
use file_cheap.Worker.FileJob.Registry.{
  Request, thumbnail, resize, webp, watermark, optimize, convert, pdf_thumbnail, metadata,
  video_thumbnail, video_transcode, handle, handle_all,
}

module _ {S : Type 0} (show_id : ℕ → Bytes) (env : Env S) (laws : StorageLaws env.storage) where
  thumbnail_Keeps :
      (d : Option ThumbnailPayload) → Keeps env.storage (thumbnail_handler show_id env d)
  unfolding thumbnail_handler
  thumbnail_Keeps d = search keeps_rules depth 40

  resize_Keeps : (d : Option ResizePayload) → Keeps env.storage (resize_handler show_id env d)
  unfolding resize_handler
  resize_Keeps d = search keeps_rules depth 40

  webp_Keeps : (d : Option QualityPayload) → Keeps env.storage (webp_handler show_id env d)
  unfolding webp_handler
  webp_Keeps d = search keeps_rules depth 40

  watermark_Keeps :
      (d : Option WatermarkPayload) → Keeps env.storage (watermark_handler show_id env d)
  unfolding watermark_handler
  watermark_Keeps d = search keeps_rules depth 40

  optimize_Keeps : (d : Option QualityPayload) → Keeps env.storage (optimize_handler show_id env d)
  unfolding optimize_handler
  optimize_Keeps d = search keeps_rules depth 40

  convert_Keeps : (d : Option ConvertPayload) → Keeps env.storage (convert_handler show_id env d)
  unfolding convert_handler
  convert_Keeps d = search keeps_rules depth 40

  pdf_thumbnail_Keeps :
      (d : Option PdfThumbnailPayload) → Keeps env.storage (pdf_thumbnail_handler show_id env d)
  unfolding pdf_thumbnail_handler
  pdf_thumbnail_Keeps d = search keeps_rules depth 40

  metadata_Keeps : (d : Option MetadataPayload) → Keeps env.storage (metadata_handler show_id env d)
  unfolding metadata_handler
  metadata_Keeps d = search keeps_rules depth 40

  video_thumbnail_Keeps :
      (d : Option VideoThumbnailPayload) → Keeps env.storage (video_thumbnail_handler show_id env d)
  unfolding video_thumbnail_handler
  video_thumbnail_Keeps d = search keeps_rules depth 40

  video_transcode_Keeps :
      (d : Option VideoTranscodePayload) → Keeps env.storage (video_transcode_handler show_id env d)
  unfolding video_transcode_handler
  video_transcode_Keeps d = search originals_rules depth 40

  handle-Keeps : (request : Request) → Keeps env.storage (handle show_id env request)
  handle-Keeps (thumbnail d) = thumbnail_Keeps d
  handle-Keeps (resize d) = resize_Keeps d
  handle-Keeps (webp d) = webp_Keeps d
  handle-Keeps (watermark d) = watermark_Keeps d
  handle-Keeps (optimize d) = optimize_Keeps d
  handle-Keeps (convert d) = convert_Keeps d
  handle-Keeps (pdf_thumbnail d) = pdf_thumbnail_Keeps d
  handle-Keeps (metadata d) = metadata_Keeps d
  handle-Keeps (video_thumbnail d) = video_thumbnail_Keeps d
  handle-Keeps (video_transcode d) = video_transcode_Keeps d

-- Over a storage that keeps its laws, jobs of every kind that the worker registers, run one after the other
-- with any queries failing in any of them, leave every row of variants with an object under its key, if every row has
-- one before, at a key that begins with "processed/", and no file's own key begins so; these two stay
-- true as well. Jobs that transcode a video may delete the object of its file.
pub handle_all-AllStored :
    {S : Type 0} (show_id : ℕ → Bytes) (env : Env S)
    → StorageLaws env.storage
    → (requests : List ((Query → Bool) × Request)) (w : World S) → AllStored env.storage w
    → AllStored env.storage (handle_all show_id env requests w)
handle_all-AllStored show_id env laws [] w h = h
handle_all-AllStored show_id env laws ((fails, request) ∷ requests) w h =
    let env' : Env _ = record env { fails = fails } in
    handle_all-AllStored show_id env laws requests (handle show_id env' request w).1
      ((handle-Keeps show_id env' laws request).at w h)
