-- ===== src/Api/ChunkedUpload/Started.antt =====
-- The start of an upload (internal/api/chunked_upload.go).
use native.Mathlib.Nat.{div-le_self}
use file_cheap.Prelude.{
  ℕ, ◌+◌, ◌-◌, ◌/◌, ◌^◌, ◌<◌, ◌≡◌, ◌⊎◌, refl, ap, ◌∙◌, false, Option, some, [], arith, Option-cases,
  Bool-cases, inl, inr,
}
use file_cheap.Prelude.Key.{◌==◌, test_refl}
use file_cheap.Prelude.Bytes.{bytes_key}
use file_cheap.Prelude.Int.{
  ℤ, pos, leb_ℤ, wrap64, quot_ℤ, ◌-ℤ◌, wrap64_small, pos-add, pos-sub, pos-quot,
}
use file_cheap.Prelude.Map.{lookup, insert, lookup-insert}
use file_cheap.Storage.{Storage}
use file_cheap.Api.ChunkedUpload.{World, ApiError, missing_required_fields}
use file_cheap.Api.ChunkedUpload.Init.{
  Caller, InitUploadRequest, BillingInfo, InitUploadResponse, refusal, new_session, chunks_of,
  chunk_size_or_default, init_chunked_upload_handler,
}
use file_cheap.Api.ChunkedUpload.Progress.{Holds}
use file_cheap.Api.ChunkedUpload.Sent.{no_chunks}

chunks_of_lem :
    (size chunk : ℕ)
    → 0 < size
    → 0 < chunk
    → size + chunk < 2 ^ 63
    → chunks_of (pos size) (pos chunk) ≡ pos ((size + chunk - 1) / chunk)
chunks_of_lem size chunk s c h =
    let total = ap wrap64 (pos-add size chunk) ∙ wrap64_small (size + chunk) h in
    let less =
      ap wrap64 (pos-sub (size + chunk) 1 (omega arith))
      ∙ wrap64_small (size + chunk - 1) (omega arith) in
    let count =
      ap wrap64 (pos-quot (size + chunk - 1) chunk)
      ∙ wrap64_small ((size + chunk - 1) / chunk)
          (omega (arith, div-le_self (size + chunk - 1) chunk)) in
    ap (λ t. wrap64 (quot_ℤ (wrap64 (t -ℤ pos 1)) (pos chunk))) total
    ∙ ap (λ t. wrap64 (quot_ℤ t (pos chunk))) less
    ∙ count

started :
    {S : Type 0} (storage : Storage S) (caller : Caller) (req : InitUploadRequest)
    (size chunk now : ℕ) (w : World S)
    → req.total_size ≡ pos size
    → 0 < size
    → 0 < chunk
    → size + chunk < 2 ^ 63
    → let session = new_session (pos chunk) caller req now in
      (session.chunks_total ≡ pos ((size + chunk - 1) / chunk))
      × Holds storage caller.upload_id session
          ((size + chunk - 1) / chunk)
          no_chunks
          (record w { sessions = insert caller.upload_id session w.sessions })
unfolding new_session lookup
started storage caller req size chunk now w declared s c h =
    let usual : chunk_size_or_default (pos chunk) ≡ pos chunk = ground arith in
    let total : chunks_of req.total_size (chunk_size_or_default (pos chunk))
        ≡ pos ((size + chunk - 1) / chunk) =
      ap (λ t. chunks_of t (chunk_size_or_default (pos chunk))) declared
      ∙ ap (chunks_of (pos size)) usual
      ∙ chunks_of_lem size chunk s c h in
    (
      total,
      record {
        here =
            lookup-insert caller.upload_id caller.upload_id _ w.sessions
            ∙ rw (test_refl caller.upload_id);
        total = total;
        unique = tt;
        loaded = λ i. refl;
        in_range = λ i given. absurd (given refl);
        stored = λ i content e. cc;
      },
    )

-- What the answer to a request to start an upload means.
pub record IsStarted {S : Type 0} (storage : Storage S) (caller : Caller) (req : InitUploadRequest)
    (size chunk now : ℕ) (w' : World S) (response : InitUploadResponse) : Type 0 where
  pub id : response.upload_id ≡ caller.upload_id
  pub total : response.chunks_total ≡ pos ((size + chunk - 1) / chunk)
  pub fresh :
      Holds storage caller.upload_id
        (new_session (pos chunk) caller req now)
        ((size + chunk - 1) / chunk)
        no_chunks
        w'

-- A request to start an upload of `size` bytes in chunks of `chunk` bytes, where both are positive
-- and their sum is less than 2^63, is refused and changes nothing, or starts a session without
-- chunks, under the id of the answer; its number of chunks is the size divided by that of a chunk,
-- rounded up.
pub init_chunked_upload_handler-IsStarted :
    {S : Type 0} (storage : Storage S) (caller : Caller) (req : InitUploadRequest)
    (billing : Option BillingInfo) (usage : Option ℤ) (size chunk now : ℕ) (w : World S)
    → req.total_size ≡ pos size
    → 0 < size
    → 0 < chunk
    → size + chunk < 2 ^ 63
    → let (reply, w') =
        init_chunked_upload_handler (pos chunk) (some caller) (some req) billing usage now w in
      ((e : ApiError) × (reply ≡ inl e) × (w' ≡ w))
      ⊎ ((response : InitUploadResponse) × (reply ≡ inr response)
          × IsStarted storage caller req size chunk now w' response)
unfolding init_chunked_upload_handler new_session lookup
init_chunked_upload_handler-IsStarted storage caller req billing usage size chunk now w declared s c
      h =
    let (total, fresh) = started storage caller req size chunk now w declared s c h in
    let enough : leb_ℤ req.total_size (pos 0) ≡ false = ground arith in
    elim (Bool-cases (req.filename == [])) [
      | inl unnamed ↦ rw unnamed (inl (missing_required_fields, refl, refl))
      | inr named ↦ elim (Option-cases (refusal billing usage req)) [
        | inl passed ↦
            rw (named, enough, passed)
              (inr (_, refl, record { id = refl; total = total; fresh = fresh }))
        | inr (e, refused) ↦ rw (named, enough, refused) (inl (e, refl, refl))
      ]
    ]
