-- ===== src/Api/ChunkedUpload/Chunks.antt =====
-- The handlers of internal/api/chunked_upload.go that reach the storage: `UploadChunkHandler` with
-- `assembleChunks`, `CancelUploadHandler` and `cleanupExpired`.
use file_cheap.Prelude.{
  ℕ, zero, suc, ◌+◌, ◌*◌, ◌⊎◌, inl, inr, true, Option, none, some, [], ◌∷◌, ◌++◌, ltb,
  if◌then◌else◌, length,
}
use file_cheap.Prelude.Key.{nat_key}
use file_cheap.Prelude.Bytes.{Bytes, bytes, bytes_key}
use file_cheap.Prelude.Int.{pos, negsuc, leb_ℤ, pos_part}
use file_cheap.Prelude.Map.{Map, insert, delete}
use file_cheap.Storage.{Storage}
use file_cheap.Worker.Enqueue.{Tasks, enqueue_with_tracking}
use file_cheap.Api.ChunkedUpload.{
  Session, FileRow, World, ApiError, invalid_chunk_index, chunk_out_of_range, read_chunk_failed,
  internal, assemble_failed, chunk_key, job_for, or_octet_stream, FileId, of_file, of_session,
  Database, ChunkRequest, UploadChunkResponse, is_complete, session_of, unauthorized,
}

-- `session.ChunksLoaded[i] = true`.
abbrev pub with_chunk : ℕ → Session → Session
with_chunk i session = record session { chunks_loaded = insert i true session.chunks_loaded }

abbrev pub one_hour : ℕ
one_hour = 60 * 60 * 1_000_000_000

module _ {S : Type 0} (storage : Storage S) where
  -- What the writer sends through the pipe: `n` chunks from number `i` on, or an error.
  unfoldable pub gather : ℕ → ℕ → Bytes → S → Option Bytes
  gather zero i key s = some []
  gather (suc n) i key s =
      let rest = gather n (suc i) key s in
      elim (storage.download (chunk_key key i) s) [
        | none ↦ none
        | some chunk ↦ elim rest [ none ↦ none | some more ↦ some (chunk ++ more) ]
      ]

  -- The loop that deletes `n` chunks from number `i` on, whatever the storage answers.
  unfoldable pub delete_chunks : ℕ → ℕ → Bytes → S → S
  delete_chunks zero i key s = s
  delete_chunks (suc n) i key s = delete_chunks n (suc i) key (storage.remove (chunk_key key i) s).1

  -- The rows of the file and of its job, if there is a database.
  unfoldable pub add_file : Option Database → Session → World S → Option FileId × World S
  add_file none session w = (some (of_session session.id), w)
  add_file (some db) session w = elim db.file_id [
    | none ↦ (none, w)
    | some id ↦
        let content_type = or_octet_stream session.content_type in
        let row : FileRow = record {
          id = id;
          user_id = session.user_id;
          filename = session.filename;
          content_type = content_type;
          size_bytes = session.total_size;
          storage_key = session.storage_key;
        } in
        let tasks : Tasks = elim (if db.has_broker then job_for content_type else none) [
          | none ↦ w.tasks
          | some job_type ↦ (enqueue_with_tracking db.answers job_type id w.tasks).1
        ] in
        (some (of_file id), record w { files = row ∷ w.files; tasks = tasks })
  ]

  -- `assembleChunks`.
  unfoldable pub assemble_chunks : Option Database → Session → World S → Option FileId × World S
  unfolding gather delete_chunks add_file
  assemble_chunks db session w =
      let n = pos_part session.chunks_total in
      let whole = gather n 0 session.storage_key w.objects in
      let (ok, objects) =
        storage.upload session.storage_key whole session.content_type session.total_size
          w.objects in
      if ok
      then add_file db session
          (record w { objects = delete_chunks n 0 session.storage_key objects })
      else (none, record w { objects = objects })

  -- From the stored chunk on.
  unfoldable pub after_chunk :
      Option Database → Bytes → ℕ → Session → World S → (ApiError ⊎ UploadChunkResponse) × World S
  unfolding assemble_chunks
  after_chunk db upload_id i session w =
      let marked = with_chunk i session in
      let loaded = record w { sessions = insert upload_id marked w.sessions } in
      let response : Option FileId → UploadChunkResponse = λ file_id. record {
        upload_id = upload_id;
        chunk_index = i;
        chunks_loaded = length marked.chunks_loaded;
        chunks_total = marked.chunks_total;
        complete = is_complete marked;
        file_id = file_id;
      } in
      let (assembled, w') = assemble_chunks db marked loaded in
      if is_complete marked
      then (elim assembled [
        | none ↦ (inl assemble_failed, w')
        | some file_id ↦
            (inr (response (some file_id)), record w' { sessions = delete upload_id w'.sessions })
      ])
      else (inr (response none), loaded)

  -- A chunk for a session of the caller.
  unfoldable pub store_chunk :
      Option Database
      → Bytes
      → ℕ
      → Option Bytes
      → Session
      → World S
      → (ApiError ⊎ UploadChunkResponse) × World S
  unfolding after_chunk
  store_chunk db upload_id i none session w = (
    if leb_ℤ session.chunks_total (pos i) then inl chunk_out_of_range else inl read_chunk_failed,
    w,
  )
  store_chunk db upload_id i (some content) session w =
      let (ok, objects) =
        storage.upload (chunk_key session.storage_key i) (some content)
          (bytes "application/octet-stream") (pos (length content)) w.objects in
      if leb_ℤ session.chunks_total (pos i)
      then (inl chunk_out_of_range, w)
      else if ok
      then after_chunk db upload_id i session (record w { objects = objects })
      else (inl internal, record w { objects = objects })

  -- `UploadChunkHandler`; the chunk of the request is what `Atoi` makes of its text.
  unfoldable pub upload_chunk_handler :
      Option Database → ChunkRequest → World S → (ApiError ⊎ UploadChunkResponse) × World S
  unfolding store_chunk session_of
  upload_chunk_handler db r w = elim r.user_id [
    | none ↦ (inl unauthorized, w)
    | some user_id ↦ elim r.chunk [
      | none ↦ (inl invalid_chunk_index, w)
      | some (negsuc n) ↦ (inl invalid_chunk_index, w)
      | some (pos i) ↦ elim (session_of (some user_id) r.upload_id w) [
        | inl e ↦ (inl e, w)
        | inr session ↦ store_chunk db r.upload_id i r.body session w
      ]
    ]
  ]

  -- `CancelUploadHandler`; `none` is the answer without content.
  unfoldable pub cancel_upload_handler : Option ℕ → Bytes → World S → Option ApiError × World S
  unfolding session_of delete_chunks
  cancel_upload_handler user_id upload_id w = elim (session_of user_id upload_id w) [
    | inl e ↦ (some e, w)
    | inr session ↦ (
      none,
      record w {
        sessions = delete upload_id w.sessions;
        objects = delete_chunks (pos_part session.chunks_total) 0 session.storage_key w.objects;
      },
    )
  ]

  -- `cleanupExpired`, over the entries of the sessions.
  unfoldable pub expire : ℕ → Map Bytes Session → S → Map Bytes Session × S
  unfolding delete_chunks
  expire now [] s = ([], s)
  expire now ((id, session) ∷ sessions) s =
      let old = ltb (session.created_at + one_hour) now in
      let n = pos_part session.chunks_total in
      let s' = if old then delete_chunks n 0 session.storage_key s else s in
      let (kept, objects) = expire now sessions s' in
      (if old then kept else (id, session) ∷ kept, objects)

  unfoldable pub cleanup_expired : ℕ → World S → World S
  unfolding expire
  cleanup_expired now w =
      let (sessions, objects) = expire now w.sessions w.objects in
      record w { sessions = sessions; objects = objects }
