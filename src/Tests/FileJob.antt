-- ===== src/Tests/FileJob.antt =====
-- Runs of the jobs on files.
use file_cheap.Prelude.{List, Bool, arith, ℕ, ◌+◌, ◌≡◌, ◌≢◌, refl, true, false, none, some, [], ◌∷◌}
use file_cheap.Prelude.Bytes.{Bytes, bytes, bytes_key}
use file_cheap.Prelude.Int.{ℤ}
use file_cheap.Prelude.Key.{nat_key}
use file_cheap.Prelude.Map.{lookup, insert}
use file_cheap.Storage.Memory.{Files, memory_storage, memory_storage_lem}
use file_cheap.Worker.FileJob.{
  Query, FileStatus, JobStatus, not_recorded, File, Job, World, Processed, Processor, Env,
}
use file_cheap.Worker.FileJob.Action.{ok, refused, retryable, ◌>>=◌, answer, refuse, or_stop}
use file_cheap.Worker.FileJob.Payloads.{
  VideoTranscodePayload, ThumbnailPayload, ResizePayload, ConvertPayload,
}
use file_cheap.Worker.FileJob.Steps.{
  is_among, is_variant_type, mark, get_file, download, must_get, process, upload, create_variant,
  complete_file,
}
use file_cheap.Worker.FileJob.Handlers.{
  thumbnail_handler, convert_handler, resize_handler, webp_handler, watermark_handler,
  optimize_handler, pdf_thumbnail_handler, video_thumbnail_handler,
}
use file_cheap.Worker.FileJob.Transcode.{
  video_transcode_handler, track_usage, ensure_usage, increment_usage, delete_original,
  remove_original,
}
use file_cheap.Worker.FileJob.Builder.{build}
use file_cheap.Worker.FileJob.Configs.{
  thumbnail_payload, thumbnail_config, thumbnail_handler_v2, webp_handler_v2, watermark_handler_v2,
  optimize_handler_v2, pdf_thumbnail_handler_v2, video_thumbnail_handler_v2, resize_handler_v2,
  convert_handler_v2,
}
use file_cheap.Worker.FileJob.Equivalence.{v2_agrees}
use file_cheap.Worker.FileJob.Keeps.{AllStored, begins}
use file_cheap.Worker.FileJob.Leaves.{started, completed_job, row_after}
use file_cheap.Worker.FileJob.Outcome.{handle_ends}
use file_cheap.Worker.FileJob.Registry.{
  Request, video_transcode, thumbnail, convert, handle, handle_all,
}
use file_cheap.Worker.FileJob.Stored.{handle_all-AllStored}
use file_cheap.Worker.FileJob.Success.{Recorded, build_succeeds}
use file_cheap.Worker.FileJob.UnknownType.{unknown_type_fails}

-- The id of a file in one digit.
abbrev show_digit : ℕ → Bytes
show_digit n = (b'0' + n) ∷ []

abbrev shrunk : Processed
shrunk = record {
  content = some (7 ∷ 8 ∷ []);
  content_type = bytes "image/jpeg";
  size = ℤ.pos 2;
  width = ℤ.pos 300;
  height = ℤ.pos 300;
  seconds = ℤ.pos 0;
}

abbrev shrink : Processor
shrink options content = some shrunk

abbrev an_env : Env Files
an_env = record {
  fails = λ _. false;
  storage = memory_storage false;
  registry = λ _. some shrink;
  has_dispatcher = true;
  deletes_originals = λ _. some true;
}

abbrev a_file : File
a_file = record {
  user_id = some 4;
  content_type = bytes "image/png";
  storage_key = bytes "uploads/1";
  status = FileStatus.pending;
}

abbrev a_job : Job
a_job = record { status = JobStatus.pending; attempts = 0; error_message = none }

abbrev a_world : World Files
a_world = record {
  files = (1, a_file) ∷ [];
  jobs = (9, a_job) ∷ [];
  variants = [];
  objects =
      (bytes "uploads/1", record { content = 1 ∷ 2 ∷ 3 ∷ []; content_type = bytes "image/png" })
      ∷ [];
  events = [];
  usage = [];
}

abbrev to_thumbnail : ThumbnailPayload
to_thumbnail = record {
  job_id = some 9;
  file_id = 1;
  width = ℤ.pos 300;
  height = ℤ.pos 300;
  quality = ℤ.pos 85;
  position = bytes "center";
}

abbrev to_png : ConvertPayload
to_png = record { job_id = some 9; file_id = 1; format = bytes "png"; quality = ℤ.pos 85 }

abbrev to_small : ResizePayload
to_small = record {
  job_id = some 9;
  file_id = 1;
  width = ℤ.pos 64;
  height = ℤ.pos 64;
  quality = ℤ.pos 85;
  variant_type = bytes "small";
}

a_job_at : lookup 9 a_world.jobs ≡ some a_job
unfolding lookup
a_job_at = refl

a_file_at : lookup 1 a_world.files ≡ some a_file
unfolding lookup
a_file_at = refl

an_object_at : an_env.storage.download (bytes "uploads/1") a_world.objects ≡ some (1 ∷ 2 ∷ 3 ∷ [])
unfolding lookup
an_object_at = refl

png_unknown : is_variant_type (bytes "png") ≡ false
unfolding is_variant_type is_among
png_unknown = refl

small_unknown : is_variant_type (bytes "small") ≡ false
unfolding is_variant_type is_among
small_unknown = refl

thumbnail_known : is_variant_type (bytes "thumbnail") ≡ true
unfolding is_variant_type is_among
thumbnail_known = refl

-- The conversion fails after its object is stored.
convert_leaves_object :
    (convert_handler show_digit an_env (some to_png) a_world).0 ≡ refused (retryable not_recorded)
unfolding convert_handler ◌>>=◌ answer refuse or_stop mark get_file download must_get process upload
    create_variant complete_file is_variant_type is_among lookup insert
convert_leaves_object = refl

v2_agrees_example :
    (thumbnail_handler_v2 show_digit an_env ≡ thumbnail_handler show_digit an_env)
    × (webp_handler_v2 show_digit an_env ≡ webp_handler show_digit an_env)
    × (watermark_handler_v2 show_digit an_env ≡ watermark_handler show_digit an_env)
    × (optimize_handler_v2 show_digit an_env ≡ optimize_handler show_digit an_env)
    × (pdf_thumbnail_handler_v2 show_digit an_env ≡ pdf_thumbnail_handler show_digit an_env)
    × (video_thumbnail_handler_v2 show_digit an_env ≡ video_thumbnail_handler show_digit an_env)
v2_agrees_example =
    v2_agrees show_digit an_env (shrink, refl) (shrink, refl) (shrink, refl) (shrink, refl)
      (shrink, refl) (shrink, refl)

abbrev to_video : VideoTranscodePayload
to_video = record {
  job_id = some 9;
  file_id = 1;
  output_format = [];
  max_resolution = ℤ.pos 720;
  crf = ℤ.pos 23;
  variant_type = bytes "mp4_720p";
}

abbrev three_jobs : List ((Query → Bool) × Request)
three_jobs =
    ((λ _. false), thumbnail (some to_thumbnail))
    ∷ ((λ _. false), video_transcode (some to_video))
    ∷ ((λ _. false), convert (some to_png))
    ∷ []

a_world-AllStored : AllStored an_env.storage a_world
unfolding lookup begins
a_world-AllStored = record {
  at = tt;
  keyed = tt;
  apart = λ i f h. record { other = ground (arith, h) };
}

handle_all-AllStored_example :
    AllStored an_env.storage (handle_all show_digit an_env three_jobs a_world)
handle_all-AllStored_example =
    handle_all-AllStored show_digit an_env (memory_storage_lem false) three_jobs a_world
      a_world-AllStored

-- The original is gone after its video is made.
original_deleted :
    (handle show_digit an_env (video_transcode (some to_video)) a_world).1.files
    ≡ (1, record a_file { status = FileStatus.completed; storage_key = [] }) ∷ []
unfolding video_transcode_handler track_usage ensure_usage increment_usage delete_original
    remove_original ◌>>=◌ answer refuse or_stop mark get_file download must_get process upload
    create_variant complete_file is_variant_type is_among lookup insert
original_deleted = refl

handle_ends_example :
    lookup 9 (handle show_digit an_env (convert (some to_png)) a_world).1.jobs
    ≡ some (
        row_after
          (completed_job (started a_job))
          (started a_job)
          (handle show_digit an_env (convert (some to_png)) a_world).0)
handle_ends_example =
    handle_ends show_digit an_env 9 a_job refl refl refl (convert (some to_png)) refl a_world
      a_job_at

unknown_type_fails_example :
    ((convert_handler show_digit an_env (some to_png) a_world).0 ≢ ok tt)
    × ((resize_handler show_digit an_env (some to_small) a_world).0 ≢ ok tt)
    × ((convert_handler_v2 show_digit an_env (some to_png) a_world).0 ≢ ok tt)
    × ((resize_handler_v2 show_digit an_env (some to_small) a_world).0 ≢ ok tt)
unknown_type_fails_example =
    unknown_type_fails show_digit an_env to_png to_small png_unknown small_unknown (some to_png)
      (some to_small) a_world

build_succeeds_example :
    Recorded show_digit an_env thumbnail_config to_thumbnail
      (7 ∷ 8 ∷ [])
      shrunk
      a_world
      (build show_digit an_env thumbnail_config (some to_thumbnail) a_world)
build_succeeds_example =
    build_succeeds show_digit an_env thumbnail_config (memory_storage_lem false) to_thumbnail
      a_world a_file (1 ∷ 2 ∷ 3 ∷ []) (7 ∷ 8 ∷ []) shrink shrunk refl refl refl a_file_at refl
      an_object_at refl refl refl thumbnail_known refl
