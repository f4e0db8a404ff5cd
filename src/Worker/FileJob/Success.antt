-- ===== src/Worker/FileJob/Success.antt =====
-- A run of the one flow in which nothing fails (internal/worker/middleware.go).
use file_cheap.Prelude.{
  ◌≡◌, refl, ◌∙◌, ℕ, Bool, true, false, Option, none, some, ◌∷◌, if◌then◌else◌, Bool-cases, inl,
  inr, arith,
}
use file_cheap.Prelude.Bytes.{Bytes}
use file_cheap.Prelude.Key.{nat_key}
use file_cheap.Prelude.Map.{lookup}
use file_cheap.Storage.{StorageLaws}
use file_cheap.Worker.FileJob.{
  Event, processing_completed, Failure, File, Job, World, Processed, Processor, Query,
  get_file_query, create_variant_query, mark_running_query, Options, update_status_query, Env,
}
use file_cheap.Worker.FileJob.Action.{Stop, Action, Reply, ◌>>◌, ok, ◌>>=◌, answer, or_stop}
use file_cheap.Worker.FileJob.Steps.{
  mark_job_completed, mark_job_running, mark_job_failed, complete_row, variant_row, is_variant_type,
  update, mark, dispatch, get_file, download, get_or_error, process, upload, create_variant,
  complete_file,
}
use file_cheap.Worker.FileJob.Handlers.{unmarshal, check_file}
use file_cheap.Worker.FileJob.Leaves.{started}
use file_cheap.Worker.FileJob.Builder.{
  fail_with, FileJobPayload, FileJobConfig, is_valid, variant_key, build,
}

-- An action that is done at a world goes on from there.
bind_at :
    {S A B : Type 0} (m : Action S A) (f : A → Action S B) (w : World S) {a : A} {w' : World S}
    → m w ≡ (ok a, w')
    → (m >>= f) w ≡ f a w'
unfolding ◌>>=◌
bind_at m f w h = rw h

module _ {S : Type 0} (env : Env S) (clean : Failure → Action S (Unit {0})) where
  mark_at :
      (query : Query) (f : Job → Job) (id : Option ℕ) (w : World S)
      → mark env query f id w ≡ (ok tt, record w { jobs = (mark env query f id w).1.jobs })
  unfolding mark
  mark_at query f none w = refl
  mark_at query f (some n) w = elim (Bool-cases (env.fails query)) [ inl e ↦ rw e | inr e ↦ rw e ]

  get_file_at :
      (file_id : ℕ) (w : World S) {file : File}
      → env.fails get_file_query ≡ false
      → lookup file_id w.files ≡ some file
      → get_file env clean file_id w ≡ (ok file, w)
  unfolding get_file or_stop answer
  get_file_at file_id w h e = rw (h, e)

  download_at :
      (key : Bytes) (w : World S) {content : Bytes}
      → env.storage.download key w.objects ≡ some content
      → download env clean key w ≡ (ok content, w)
  unfolding download or_stop answer
  download_at key w h = rw h

  get_or_error_at :
      (name : Bytes) (w : World S) {processor : Processor}
      → env.registry name ≡ some processor
      → get_or_error env clean name w ≡ (ok processor, w)
  unfolding get_or_error or_stop answer
  get_or_error_at name w h = rw h

  check_file_at :
      (is_right : Bool) (w : World S) → is_right ≡ true → check_file is_right clean w ≡ (ok tt, w)
  unfolding or_stop answer
  check_file_at is_right w h = rw h

  process_at :
      (processor : Processor) (options : Option Options) (content : Bytes) (w : World S)
      {result : Processed}
      → processor options content ≡ some result
      → process processor options content clean w ≡ (ok result, w)
  unfolding process or_stop answer
  process_at processor options content w h = rw h

  upload_at :
      (key : Bytes) (result : Processed) (w : World S)
      → (env.storage.upload key result.content result.content_type result.size w.objects).0 ≡ true
      → upload env clean key result w ≡ (
        ok tt,
        record w {
          objects =
              (env.storage.upload key result.content result.content_type result.size w.objects).1;
        },
      )
  unfolding upload or_stop answer
  upload_at key result w h = rw h

  create_variant_at :
      (file_id : ℕ) (variant_type key : Bytes) (result : Processed) (w : World S)
      → env.fails create_variant_query ≡ false
      → is_variant_type variant_type ≡ true
      → create_variant env clean file_id variant_type key result w
        ≡ (ok tt, record w { variants = variant_row file_id variant_type key result ∷ w.variants })
  unfolding create_variant
  create_variant_at file_id variant_type key result w h e = rw (h, e)

-- What is true at the end: no error, a new row for the variant, its object, and the file's status.
pub record Recorded {S P : Type 0} ⦃payloads : FileJobPayload P⦄ (show_id : ℕ → Bytes) (env : Env S)
    (config : FileJobConfig P) (payload : P) (output : Bytes) (result : Processed) (w : World S)
    (end : Reply Stop (Unit {0}) × World S) : Type 0 where
  pub no_error : end.0 ≡ ok tt
  pub row_added :
      end.1.variants
      ≡ variant_row
          (payloads.get_file_id payload)
          config.variant_type
          (variant_key show_id config (payloads.get_file_id payload) payload)
          result
        ∷ w.variants
  pub object_stored :
      env.storage.download
        (variant_key show_id config (payloads.get_file_id payload) payload)
        end.1.objects
      ≡ some output
  pub file_updated : end.1.files ≡ (
      if config.update_file_status
      then update complete_row (payloads.get_file_id payload) w.files
      else w.files)

module _ {S : Type 0} (env : Env S) where
  -- The tail of the flow, after the row.
  tail_ends :
      (clean : Failure → Action S (Unit {0})) (updates webhooks : Bool) (job_id : Option ℕ)
      (file : File) (file_id : ℕ) (event : ℕ → Event) (w : World S)
      → env.fails update_status_query ≡ false
      → let end =
          ((if updates then complete_file env clean file_id else answer tt)
              >> (mark_job_completed env job_id
                  >> (if webhooks then dispatch env file event else answer tt)))
            w in
        (end.0 ≡ ok tt)
        × (end.1.variants ≡ w.variants)
        × (end.1.objects ≡ w.objects)
        × (end.1.files ≡ (if updates then update complete_row file_id w.files else w.files))
  unfolding ◌>>=◌ complete_file mark dispatch answer
  tail_ends clean true true none file file_id event w h = ground (arith, h)
  tail_ends clean true true (some n) file file_id event w h = ground (arith, h)
  tail_ends clean true false none file file_id event w h = ground (arith, h)
  tail_ends clean true false (some n) file file_id event w h = ground (arith, h)
  tail_ends clean false true none file file_id event w h = ground (arith, h)
  tail_ends clean false true (some n) file file_id event w h = ground (arith, h)
  tail_ends clean false false none file file_id event w h = ground (arith, h)
  tail_ends clean false false (some n) file file_id event w h = ground (arith, h)

module _ {S P : Type 0} ⦃payloads : FileJobPayload P⦄ (show_id : ℕ → Bytes) (env : Env S)
    (config : FileJobConfig P) where
  Recorded-subst :
      (payload : P) (output : Bytes) (result : Processed) (w : World S)
      {end end' : Reply Stop (Unit {0}) × World S}
      → end ≡ end'
      → Recorded show_id env config payload output result w end'
      → Recorded show_id env config payload output result w end
  Recorded-subst payload output result w e r = rw e r

  -- A run that meets no failure ends without an error: where the file is found and valid, its object
  -- is there, the processor is registered and answers, its output can be read and uploaded, the
  -- type of the variant is in the database's list, and the three queries that can stop the run do
  -- not fail. Then there is one more row, for the variant, its key holds the output, over a storage
  -- that keeps its laws, and the file is marked as completed exactly if the configuration says so.
  -- The job's marks may fail.
  pub build_succeeds :
      StorageLaws env.storage
      → (payload : P) (w : World S) (file : File) (content output : Bytes) (processor : Processor)
        (result : Processed)
      → env.fails get_file_query ≡ false
      → env.fails create_variant_query ≡ false
      → env.fails update_status_query ≡ false
      → lookup (payloads.get_file_id payload) w.files ≡ some file
      → is_valid config file payload ≡ true
      → env.storage.download file.storage_key w.objects ≡ some content
      → env.registry config.processor_name ≡ some processor
      → processor (some (config.build_options payload)) content ≡ some result
      → result.content ≡ some output
      → is_variant_type config.variant_type ≡ true
      → (env.storage.upload
          (variant_key show_id config (payloads.get_file_id payload) payload)
          result.content
          result.content_type
          result.size
          w.objects).0
        ≡ true
      → Recorded show_id env config payload output result w
          (build show_id env config (some payload) w)
  unfolding build or_stop answer
  build_succeeds laws payload w file content output processor result h₁ h₂ h₃ h₄ h₅ h₆ h₇ h₈ h₉ h₁₀
        h₁₁ =
      let job_id = payloads.get_job_id payload in
      let file_id = payloads.get_file_id payload in
      let marked = mark_job_failed env job_id in
      let failed = fail_with env config file payload in
      let key = variant_key show_id config file_id payload in
      let w₁ : World S = record w { jobs = (mark_job_running env job_id w).1.jobs } in
      let w₂ : World S = record w₁ {
        objects =
            (env.storage.upload key result.content result.content_type result.size w.objects).1;
      } in
      let w₃ : World S = record w₂ {
        variants = variant_row file_id config.variant_type key result ∷ w.variants;
      } in
      Recorded-subst payload output result w
        (bind_at (unmarshal (some payload)) _ w refl
          ∙ bind_at (mark_job_running env job_id) _ w
              (mark_at env marked mark_running_query started job_id w)
          ∙ bind_at (get_file env marked file_id) _ w₁ (get_file_at env marked file_id w₁ h₁ h₄)
          ∙ bind_at (check_file (is_valid config file payload) marked) _ w₁
              (check_file_at env marked (is_valid config file payload) w₁ h₅)
          ∙ bind_at (download env failed file.storage_key) _ w₁
              (download_at env failed file.storage_key w₁ h₆)
          ∙ bind_at (get_or_error env failed config.processor_name) _ w₁
              (get_or_error_at env failed config.processor_name w₁ h₇)
          ∙ bind_at (process processor (some (config.build_options payload)) content failed) _ w₁
              (process_at env failed processor (some (config.build_options payload)) content w₁ h₈)
          ∙ bind_at (upload env failed key result) _ w₁ (upload_at env failed key result w₁ h₁₁)
          ∙ bind_at (create_variant env failed file_id config.variant_type key result) _ w₂
              (create_variant_at env failed file_id config.variant_type key result w₂ h₂ h₁₀))
        (let (e₁, e₂, e₃, e₄) =
            tail_ends env failed config.update_file_status config.enable_webhooks job_id file
              file_id (λ user. processing_completed user file_id config.job_type key) w₃ h₃ in
          record {
            no_error = e₁;
            row_added = e₂;
            object_stored =
                rw (e₃, h₉)
                  (laws.stored key output result.content_type result.size w.objects (rw h₉ at h₁₁));
            file_updated = e₄;
          })
