-- ===== src/Worker/FileJob/Payloads.antt =====
-- internal/worker/payloads.go: what the jobs of the queue carry. `job_id` is `none` where the id is
-- not valid. A fraction is held as what the handlers compute of it, `int(100 * fraction)`.
use file_cheap.Prelude.{ℕ, Option}
use file_cheap.Prelude.Bytes.{Bytes, bytes_key}
use file_cheap.Prelude.Int.{ℤ}

-- `VideoTranscodePayload`, without the preset, which no handler reads but for a log line.
pub record VideoTranscodePayload : Type 0 where
  pub job_id : Option ℕ
  pub file_id : ℕ
  pub output_format : Bytes
  pub max_resolution : ℤ
  pub crf : ℤ
  pub variant_type : Bytes

-- `WebPPayload` and `OptimizePayload`.
pub record QualityPayload : Type 0 where
  pub job_id : Option ℕ
  pub file_id : ℕ
  pub quality : ℤ

pub record ThumbnailPayload : Type 0 where
  pub job_id : Option ℕ
  pub file_id : ℕ
  pub width : ℤ
  pub height : ℤ
  pub quality : ℤ
  pub position : Bytes

pub record ResizePayload : Type 0 where
  pub job_id : Option ℕ
  pub file_id : ℕ
  pub width : ℤ
  pub height : ℤ
  pub quality : ℤ
  pub variant_type : Bytes

-- The colour and the flag are read by no handler.
pub record WatermarkPayload : Type 0 where
  pub job_id : Option ℕ
  pub file_id : ℕ
  pub text : Bytes
  pub position : Bytes
  pub opacity_percent : ℤ
  pub font_size : ℤ

pub record ConvertPayload : Type 0 where
  pub job_id : Option ℕ
  pub file_id : ℕ
  pub format : Bytes
  pub quality : ℤ

pub record PdfThumbnailPayload : Type 0 where
  pub job_id : Option ℕ
  pub file_id : ℕ
  pub page : ℤ
  pub width : ℤ
  pub height : ℤ
  pub quality : ℤ
  pub format : Bytes

pub record MetadataPayload : Type 0 where
  pub job_id : Option ℕ
  pub file_id : ℕ

pub record VideoThumbnailPayload : Type 0 where
  pub job_id : Option ℕ
  pub file_id : ℕ
  pub width : ℤ
  pub height : ℤ
  pub quality : ℤ
  pub at_percent : ℤ
  pub format : Bytes
