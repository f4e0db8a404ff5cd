-- ===== src/Worker/FileJob/Equivalence.antt =====
-- The handlers that are built by one flow against those that are written out
-- (internal/worker/handlers_v2.go and internal/worker/handlers.go).
use mathlib.Core.Path.{fun_ext}
use file_cheap.Prelude.{◌≡◌, refl, false, ℕ, Option, some}
use file_cheap.Prelude.Bytes.{Bytes, bytes}
use file_cheap.Worker.FileJob.{Failure, File, Env, Processor}
use file_cheap.Worker.FileJob.Action.{Action, or_stop, or_stop-some, answer-bind, then-answer}
use file_cheap.Worker.FileJob.Payloads.{
  QualityPayload, ThumbnailPayload, WatermarkPayload, PdfThumbnailPayload, VideoThumbnailPayload,
}
use file_cheap.Worker.FileJob.Steps.{mark_job_failed, must_get, get_or_error}
use file_cheap.Worker.FileJob.Handlers.{
  thumbnail_handler, webp_handler, watermark_handler, optimize_handler, pdf_thumbnail_handler,
  video_thumbnail_handler,
}
use file_cheap.Worker.FileJob.Builder.{FileJobPayload, FileJobConfig, build, fail_with}
use file_cheap.Worker.FileJob.Configs.{
  quality_payload, watermark_payload, pdf_thumbnail_payload, video_thumbnail_payload, webp_config,
  watermark_config, optimize_config, pdf_thumbnail_config, video_thumbnail_config,
  thumbnail_handler_v2, webp_handler_v2, watermark_handler_v2, optimize_handler_v2,
  pdf_thumbnail_handler_v2, video_thumbnail_handler_v2,
}

abbrev pub IsRegistered : {S : Type 0} → Env S → Bytes → Type 0
IsRegistered env name = (p : Processor) × (env.registry name ≡ some p)

ruleset flow_rules = (or_stop-some, answer-bind, then-answer)

module _ {S : Type 0} where
  get_or_error-must_get :
      (env : Env S) (name : Bytes)
      → IsRegistered env name
      → (clean : Failure → Action S (Unit {0})) → get_or_error env clean name ≡ must_get env name
  unfolding get_or_error must_get or_stop
  get_or_error-must_get env name (p, h) clean = rw h

  -- Without webhooks, the job is marked and nothing more.
  fail_with_quiet :
      {P : Type 0} ⦃payloads : FileJobPayload P⦄ (env : Env S) (config : FileJobConfig P)
      → config.enable_webhooks ≡ false
      → (file : File) (payload : P)
      → fail_with env config file payload ≡ mark_job_failed env (payloads.get_job_id payload)
  unfolding fail_with
  fail_with_quiet ⦃payloads⦄ env config h file payload =
      fun_ext
        λ failure. rw h (then-answer (mark_job_failed env (payloads.get_job_id payload) failure))

module _ {S : Type 0} (show_id : ℕ → Bytes) (env : Env S) where
  thumbnail_agrees :
      (decoded : Option ThumbnailPayload)
      → IsRegistered env (bytes "thumbnail")
      → thumbnail_handler_v2 show_id env decoded ≡ thumbnail_handler show_id env decoded
  unfolding build thumbnail_handler_v2 thumbnail_handler fail_with
  thumbnail_agrees decoded h =
      simp (get_or_error-must_get env (bytes "thumbnail") h, flow_rules) refl

  webp_agrees :
      (decoded : Option QualityPayload)
      → IsRegistered env (bytes "webp")
      → webp_handler_v2 show_id env decoded ≡ webp_handler show_id env decoded
  unfolding build webp_handler_v2 webp_handler
  webp_agrees decoded h =
      simp
        (
          get_or_error-must_get env (bytes "webp") h,
          fail_with_quiet env webp_config refl,
          flow_rules,
        )
        refl

  watermark_agrees :
      (decoded : Option WatermarkPayload)
      → IsRegistered env (bytes "watermark")
      → watermark_handler_v2 show_id env decoded ≡ watermark_handler show_id env decoded
  unfolding build watermark_handler_v2 watermark_handler
  watermark_agrees decoded h =
      simp
        (
          get_or_error-must_get env (bytes "watermark") h,
          fail_with_quiet env watermark_config refl,
          flow_rules,
        )
        refl

  optimize_agrees :
      (decoded : Option QualityPayload)
      → IsRegistered env (bytes "optimize")
      → optimize_handler_v2 show_id env decoded ≡ optimize_handler show_id env decoded
  unfolding build optimize_handler_v2 optimize_handler
  optimize_agrees decoded h =
      simp
        (
          get_or_error-must_get env (bytes "optimize") h,
          fail_with_quiet env optimize_config refl,
          flow_rules,
        )
        refl

  pdf_thumbnail_agrees :
      (decoded : Option PdfThumbnailPayload)
      → IsRegistered env (bytes "pdf_thumbnail")
      → pdf_thumbnail_handler_v2 show_id env decoded ≡ pdf_thumbnail_handler show_id env decoded
  unfolding build pdf_thumbnail_handler_v2 pdf_thumbnail_handler
  pdf_thumbnail_agrees decoded h =
      simp
        (
          get_or_error-must_get env (bytes "pdf_thumbnail") h,
          fail_with_quiet env pdf_thumbnail_config refl,
          flow_rules,
        )
        refl

  video_thumbnail_agrees :
      (decoded : Option VideoThumbnailPayload)
      → IsRegistered env (bytes "video_thumbnail")
      → video_thumbnail_handler_v2 show_id env decoded ≡ video_thumbnail_handler show_id env decoded
  unfolding build video_thumbnail_handler_v2 video_thumbnail_handler
  video_thumbnail_agrees decoded h =
      simp
        (
          get_or_error-must_get env (bytes "video_thumbnail") h,
          fail_with_quiet env video_thumbnail_config refl,
          flow_rules,
        )
        refl

  -- With their processors registered, the handlers for thumbnails, WebP, watermarks, optimizing, the
  -- pages of PDFs and the frames of videos that are built by the one flow do, from every payload and
  -- every world, what the handlers do that are written out: they end alike, and leave the same rows,
  -- objects and events.
  pub v2_agrees :
      IsRegistered env (bytes "thumbnail")
      → IsRegistered env (bytes "webp")
      → IsRegistered env (bytes "watermark")
      → IsRegistered env (bytes "optimize")
      → IsRegistered env (bytes "pdf_thumbnail")
      → IsRegistered env (bytes "video_thumbnail")
      → (thumbnail_handler_v2 show_id env ≡ thumbnail_handler show_id env)
        × (webp_handler_v2 show_id env ≡ webp_handler show_id env)
        × (watermark_handler_v2 show_id env ≡ watermark_handler show_id env)
        × (optimize_handler_v2 show_id env ≡ optimize_handler show_id env)
        × (pdf_thumbnail_handler_v2 show_id env ≡ pdf_thumbnail_handler show_id env)
        × (video_thumbnail_handler_v2 show_id env ≡ video_thumbnail_handler show_id env)
  v2_agrees h₁ h₂ h₃ h₄ h₅ h₆ = (
    fun_ext (λ d. thumbnail_agrees d h₁),
    fun_ext (λ d. webp_agrees d h₂),
    fun_ext (λ d. watermark_agrees d h₃),
    fun_ext (λ d. optimize_agrees d h₄),
    fun_ext (λ d. pdf_thumbnail_agrees d h₅),
    fun_ext (λ d. video_thumbnail_agrees d h₆),
  )
