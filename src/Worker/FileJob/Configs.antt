-- ===== src/Worker/FileJob/Configs.antt =====
-- internal/worker/handlers_v2.go: the configurations of the handlers that are built by one flow.
use file_cheap.Prelude.{ℕ, true, false, Option, none, some, ◌++◌}
use file_cheap.Prelude.Bytes.{Bytes, bytes, bytes_key}
use file_cheap.Prelude.Key.{◌==◌}
use file_cheap.Worker.FileJob.{no_options, Env}
use file_cheap.Worker.FileJob.Action.{Action}
use file_cheap.Worker.FileJob.Payloads.{
  QualityPayload, ThumbnailPayload, ResizePayload, WatermarkPayload, ConvertPayload,
  PdfThumbnailPayload, VideoThumbnailPayload,
}
use file_cheap.Worker.FileJob.Steps.{build_variant_key}
use file_cheap.Worker.FileJob.Builder.{FileJobPayload, FileJobConfig, build}
use file_cheap.Worker.FileJob.Handlers.{page_extension, frame_extension, page_percent}

-- `GetJobID` and `GetFileID` of the payloads.
instance abbrev pub quality_payload : FileJobPayload QualityPayload
quality_payload = record { get_job_id = λ p. p.job_id; get_file_id = λ p. p.file_id }

instance abbrev pub thumbnail_payload : FileJobPayload ThumbnailPayload
thumbnail_payload = record { get_job_id = λ p. p.job_id; get_file_id = λ p. p.file_id }

instance abbrev pub resize_payload : FileJobPayload ResizePayload
resize_payload = record { get_job_id = λ p. p.job_id; get_file_id = λ p. p.file_id }

instance abbrev pub watermark_payload : FileJobPayload WatermarkPayload
watermark_payload = record { get_job_id = λ p. p.job_id; get_file_id = λ p. p.file_id }

instance abbrev pub convert_payload : FileJobPayload ConvertPayload
convert_payload = record { get_job_id = λ p. p.job_id; get_file_id = λ p. p.file_id }

instance abbrev pub pdf_thumbnail_payload : FileJobPayload PdfThumbnailPayload
pdf_thumbnail_payload = record { get_job_id = λ p. p.job_id; get_file_id = λ p. p.file_id }

instance abbrev pub video_thumbnail_payload : FileJobPayload VideoThumbnailPayload
video_thumbnail_payload = record { get_job_id = λ p. p.job_id; get_file_id = λ p. p.file_id }

-- The configurations. No key is set but for resizing, and no validation but for pages.
abbrev pub thumbnail_config : FileJobConfig ThumbnailPayload
thumbnail_config = record {
  job_type = bytes "thumbnail";
  processor_name = bytes "thumbnail";
  variant_type = bytes "thumbnail";
  build_filename = λ _. bytes "thumb.jpg";
  build_options = λ payload. record no_options {
    width = payload.width;
    height = payload.height;
    quality = payload.quality;
    position = payload.position;
  };
  build_variant_key = none;
  validate = none;
  update_file_status = true;
  enable_webhooks = true;
}

abbrev pub resize_config : (ℕ → Bytes) → FileJobConfig ResizePayload
resize_config show_id = record {
  job_type = bytes "resize";
  processor_name = bytes "resize";
  variant_type = bytes "dynamic";
  build_filename = λ payload. payload.variant_type ++ bytes ".jpg";
  build_options = λ payload. record no_options {
    width = payload.width;
    height = payload.height;
    quality = payload.quality;
    variant_type = payload.variant_type;
  };
  build_variant_key =
      some
        λ file_id payload filename. build_variant_key show_id file_id payload.variant_type filename;
  validate = none;
  update_file_status = true;
  enable_webhooks = true;
}

abbrev pub webp_config : FileJobConfig QualityPayload
webp_config = record {
  job_type = bytes "webp";
  processor_name = bytes "webp";
  variant_type = bytes "webp";
  build_filename = λ _. bytes "converted.webp";
  build_options = λ payload. record no_options { quality = payload.quality };
  build_variant_key = none;
  validate = none;
  update_file_status = true;
  enable_webhooks = false;
}

abbrev pub watermark_config : FileJobConfig WatermarkPayload
watermark_config = record {
  job_type = bytes "watermark";
  processor_name = bytes "watermark";
  variant_type = bytes "watermarked";
  build_filename = λ _. bytes "watermarked.jpg";
  build_options = λ payload. record no_options {
    variant_type = payload.text;
    fit = payload.position;
    quality = payload.opacity_percent;
    width = payload.font_size;
  };
  build_variant_key = none;
  validate = none;
  update_file_status = true;
  enable_webhooks = false;
}

abbrev pub optimize_config : FileJobConfig QualityPayload
optimize_config = record {
  job_type = bytes "optimize";
  processor_name = bytes "optimize";
  variant_type = bytes "optimized";
  build_filename = λ _. bytes "optimized.jpg";
  build_options = λ payload. record no_options { quality = payload.quality };
  build_variant_key = none;
  validate = none;
  update_file_status = true;
  enable_webhooks = false;
}

abbrev pub convert_config : FileJobConfig ConvertPayload
convert_config = record {
  job_type = bytes "convert";
  processor_name = bytes "convert";
  variant_type = bytes "converted";
  build_filename = λ payload. bytes "converted." ++ payload.format;
  build_options =
      λ payload. record no_options { format = payload.format; quality = payload.quality };
  build_variant_key = none;
  validate = none;
  update_file_status = false;
  enable_webhooks = false;
}

abbrev pub pdf_thumbnail_config : FileJobConfig PdfThumbnailPayload
pdf_thumbnail_config = record {
  job_type = bytes "pdf_thumbnail";
  processor_name = bytes "pdf_thumbnail";
  variant_type = bytes "pdf_preview";
  build_filename = λ payload. bytes "preview." ++ page_extension payload.format;
  build_options = λ payload. record no_options {
    width = payload.width;
    height = payload.height;
    quality = payload.quality;
    format = payload.format;
    page = payload.page;
  };
  build_variant_key = none;
  validate = some λ file _. file.content_type == bytes "application/pdf";
  update_file_status = true;
  enable_webhooks = false;
}

abbrev pub video_thumbnail_config : FileJobConfig VideoThumbnailPayload
video_thumbnail_config = record {
  job_type = bytes "video_thumbnail";
  processor_name = bytes "video_thumbnail";
  variant_type = bytes "video_thumbnail";
  build_filename = λ payload. bytes "thumbnail." ++ frame_extension payload.format;
  build_options = λ payload. record no_options {
    width = payload.width;
    height = payload.height;
    quality = payload.quality;
    format = payload.format;
    page = page_percent payload.at_percent;
  };
  build_variant_key = none;
  validate = none;
  update_file_status = true;
  enable_webhooks = false;
}

module _ {S : Type 0} (show_id : ℕ → Bytes) (env : Env S) where
  unfoldable pub thumbnail_handler_v2 : Option ThumbnailPayload → Action S (Unit {0})
  unfolding build
  thumbnail_handler_v2 = build show_id env thumbnail_config

  unfoldable pub resize_handler_v2 : Option ResizePayload → Action S (Unit {0})
  unfolding build
  resize_handler_v2 = build show_id env (resize_config show_id)

  unfoldable pub webp_handler_v2 : Option QualityPayload → Action S (Unit {0})
  unfolding build
  webp_handler_v2 = build show_id env webp_config

  unfoldable pub watermark_handler_v2 : Option WatermarkPayload → Action S (Unit {0})
  unfolding build
  watermark_handler_v2 = build show_id env watermark_config

  unfoldable pub optimize_handler_v2 : Option QualityPayload → Action S (Unit {0})
  unfolding build
  optimize_handler_v2 = build show_id env optimize_config

  unfoldable pub convert_handler_v2 : Option ConvertPayload → Action S (Unit {0})
  unfolding build
  convert_handler_v2 = build show_id env convert_config

  unfoldable pub pdf_thumbnail_handler_v2 : Option PdfThumbnailPayload → Action S (Unit {0})
  unfolding build
  pdf_thumbnail_handler_v2 = build show_id env pdf_thumbnail_config

  unfoldable pub video_thumbnail_handler_v2 : Option VideoThumbnailPayload → Action S (Unit {0})
  unfolding build
  video_thumbnail_handler_v2 = build show_id env video_thumbnail_config
