-- ===== src/Worker/FileJob/Builder.antt =====
-- internal/worker/middleware.go: one flow for all jobs on a file, with a configuration for each.
use file_cheap.Prelude.{ℕ, Bool, true, Option, none, some, if◌then◌else◌}
use file_cheap.Prelude.Bytes.{Bytes, bytes_key}
use file_cheap.Worker.FileJob.{Failure, File, Options, Env}
use file_cheap.Worker.FileJob.Action.{Action, ◌>>=◌, ◌>>◌, answer}
use file_cheap.Worker.FileJob.Steps.{
  build_variant_key, mark_job_running, mark_job_completed, mark_job_failed, dispatch_completed,
  dispatch_failed, get_file, download, get_or_error, process, upload, create_variant, complete_file,
}
use file_cheap.Worker.FileJob.Handlers.{unmarshal, check_file}

pub record FileJobPayload (P : Type 0) : Type 0 where
  pub get_job_id : P → Option ℕ
  pub get_file_id : P → ℕ

pub record FileJobConfig (P : Type 0) : Type 0 where
  pub job_type : Bytes
  pub processor_name : Bytes
  pub variant_type : Bytes
  pub build_filename : P → Bytes
  pub build_options : P → Options
  pub build_variant_key : Option (ℕ → P → Bytes → Bytes)
  pub validate : Option (File → P → Bool)
  pub update_file_status : Bool
  pub enable_webhooks : Bool

-- The validation, if the configuration has one.
abbrev pub is_valid : {P : Type 0} → FileJobConfig P → File → P → Bool
is_valid config file payload = elim config.validate [
  | none ↦ true
  | some validate ↦ validate file payload
]

-- The key of the variant: the configuration's own, or that of its type.
abbrev pub variant_key : {P : Type 0} → (ℕ → Bytes) → FileJobConfig P → ℕ → P → Bytes
variant_key show_id config file_id payload =
    let filename = config.build_filename payload in
    elim config.build_variant_key [
      | none ↦ build_variant_key show_id file_id config.variant_type filename
      | some build ↦ build file_id payload filename
    ]

-- What is done when a step fails after the file was found.
unfoldable pub fail_with :
    {S P : Type 0} ⦃payloads : FileJobPayload P⦄
    → Env S
    → FileJobConfig P
    → File
    → P
    → Failure
    → Action S (Unit {0})
fail_with ⦃payloads⦄ env config file payload failure = do
  mark_job_failed env (payloads.get_job_id payload) failure
  if config.enable_webhooks
      then dispatch_failed env file (payloads.get_file_id payload) config.job_type failure
      else answer tt

unfoldable pub build :
    {S P : Type 0} ⦃payloads : FileJobPayload P⦄
    → (ℕ → Bytes)
    → Env S
    → FileJobConfig P
    → Option P
    → Action S (Unit {0})
build ⦃payloads⦄ show_id env config decoded = do
  payload ← unmarshal decoded
  let job_id = payloads.get_job_id payload
  let file_id = payloads.get_file_id payload
  mark_job_running env job_id
  file ← get_file env (mark_job_failed env job_id) file_id
  check_file (is_valid config file payload) (mark_job_failed env job_id)
  let failed = fail_with env config file payload
  content ← download env failed file.storage_key
  processor ← get_or_error env failed config.processor_name
  result ← process processor (some (config.build_options payload)) content failed
  let key = variant_key show_id config file_id payload
  upload env failed key result
  create_variant env failed file_id config.variant_type key result
  if config.update_file_status then complete_file env failed file_id else answer tt
  mark_job_completed env job_id
  if config.enable_webhooks
      then dispatch_completed env file file_id config.job_type key
      else answer tt
