-- ===== src/Api/ChunkedUpload/Completed.antt =====
-- A whole upload: from a session without chunks to the stored file.
use file_cheap.Prelude.{
  ℕ, ◌<◌, ◌≡◌, ◌≢◌, ◌⊎◌, refl, sym, ap, ◌∙◌, subst, true, none, some, [], ◌∷◌, arith, length,
  Option-cases, inl, inr, All,
}
use file_cheap.Prelude.Key.{test_refl}
use file_cheap.Prelude.Bytes.{Bytes, bytes_key}
use file_cheap.Prelude.Int.{pos, pos_part}
use file_cheap.Prelude.Map.{lookup, lookup-delete}
use file_cheap.Storage.{Storage, StorageLaws}
use file_cheap.Api.ChunkedUpload.{
  Session, World, ApiError, UploadChunkResponse, of_file, Database, is_complete,
}
use file_cheap.Api.ChunkedUpload.Chunks.{
  with_chunk, gather, add_file, assemble_chunks, after_chunk, upload_chunk_handler,
}
use file_cheap.Api.ChunkedUpload.Joined.{
  Contents, with_content, joined, joined-all, gather-joined, delete_chunks-keeps,
  storage_key-chunk_key,
}
use file_cheap.Api.ChunkedUpload.Progress.{
  chunk_request, Holds, Works, Holds-complete, chunk_stored, chunk_stored-Holds,
  upload_chunk_handler-stores,
}
use file_cheap.Api.ChunkedUpload.Sent.{
  Parts, row_of, no_chunks, sent, marked, marked-same, send, send-Holds,
}

-- What the answer to the last chunk and the world after it have to do with the whole file.
pub record IsCompleted {S : Type 0} (storage : Storage S) (upload_id : Bytes) (session : Session)
    (file_id : ℕ) (whole : Bytes) (before : World S)
    (outcome : (ApiError ⊎ UploadChunkResponse) × World S) : Type 0 where
  pub response : UploadChunkResponse
  pub answered : outcome.0 ≡ inr response
  pub complete : response.complete ≡ true
  pub file : response.file_id ≡ some (of_file file_id)
  pub stored : storage.download session.storage_key outcome.1.objects ≡ some whole
  pub ended : lookup upload_id outcome.1.sessions ≡ none
  pub recorded : outcome.1.files ≡ row_of file_id session ∷ before.files

module _ {S : Type 0} (storage : Storage S) (laws : StorageLaws storage)
    (works : Works storage) where
  gather-Holds :
      (upload_id : Bytes) (session : Session) (n : ℕ) (c : Contents) (w : World S) (whole : Bytes)
      → Holds storage upload_id session n c w
      → joined n 0 c ≡ some whole
      → gather storage n 0 session.storage_key w.objects ≡ some whole
  gather-Holds upload_id session n c w whole h e =
      gather-joined storage n 0 session.storage_key w.objects c (λ k a b.
        elim (Option-cases (c k)) [
          | inl absent ↦ absurd (joined-all n 0 c whole k e a b absent)
          | inr (content, there) ↦ h.stored k content there ∙ sym there
        ])
      ∙ e

  assemble_chunks-whole :
      (db : Database) (file_id : ℕ) (session : Session) (n : ℕ) (w : World S) (whole : Bytes)
      → db.file_id ≡ some file_id
      → session.chunks_total ≡ pos n
      → gather storage n 0 session.storage_key w.objects ≡ some whole
      → session.storage_key ≢ []
      → let (answer, final) = assemble_chunks storage (some db) session w in
        (answer ≡ some (of_file file_id))
        × (storage.download session.storage_key final.objects ≡ some whole)
        × (final.files ≡ row_of file_id session ∷ w.files)
  unfolding assemble_chunks add_file
  assemble_chunks-whole db file_id session n w whole file total e nonempty =
      let ok =
        works session.storage_key whole session.content_type session.total_size w.objects
          nonempty in
      let kept =
        laws.stored session.storage_key whole session.content_type session.total_size w.objects
          ok in
      let clean =
        delete_chunks-keeps storage laws n 0 session.storage_key
          (storage.upload session.storage_key (some whole) session.content_type session.total_size
            w.objects).1
          session.storage_key (storage_key-chunk_key session.storage_key) in
      let number : pos_part session.chunks_total ≡ n = ap pos_part total in
      (
        ground (arith, number, e, ok, file),
        ground (arith, number, e, ok, file, clean, kept),
        ground (arith, number, e, ok, file),
      )

  last_chunk :
      (db : Database) (file_id : ℕ) (upload_id : Bytes) (session : Session) (n i : ℕ)
      (content : Bytes) (c : Contents) (w : World S) (whole : Bytes)
      → db.file_id ≡ some file_id
      → Holds storage upload_id session n c w
      → i < n
      → joined n 0 (with_content i content c) ≡ some whole
      → session.storage_key ≢ []
      → IsCompleted storage upload_id session file_id whole w
          (upload_chunk_handler storage (some db) (chunk_request upload_id session i content) w)
  unfolding after_chunk
  last_chunk db file_id upload_id session n i content c w whole file h l e nonempty =
      let next = chunk_stored-Holds storage laws works upload_id session n i content c w h l in
      let all =
        Holds-complete storage upload_id (with_chunk i session) n (with_content i content c) _ next
          (λ k b.
            joined-all n 0 (with_content i content c) whole k e (omega arith) (omega arith)) in
      let bytes_of =
        gather-Holds upload_id (with_chunk i session) n (with_content i content c) _ whole next e in
      let (answer, stored, recorded) =
        assemble_chunks-whole db file_id (with_chunk i session) n
          (chunk_stored storage upload_id session i content w) whole file h.total bytes_of
          nonempty in
      rw (upload_chunk_handler-stores storage works (some db) upload_id session n i content c w h l)
        (record {
          response = record {
            upload_id = upload_id;
            chunk_index = i;
            chunks_loaded = length (with_chunk i session).chunks_loaded;
            chunks_total = session.chunks_total;
            complete = is_complete (with_chunk i session);
            file_id = some (of_file file_id);
          };
          answered = ground (arith, all, answer);
          complete = all;
          file = refl;
          stored = rw (all, answer) stored;
          ended = rw (all, answer) (lookup-delete upload_id upload_id _ ∙ rw (test_refl upload_id));
          recorded = rw (all, answer) recorded;
        })

-- The owner of a session without chunks, whose storage key is not empty, sends chunks, in any order
-- and any number of times each; the storage keeps the laws and its uploads work; a chunk is missing
-- before the last one and none after it, and the row of the file can be created. Then the answer to
-- the last one is that the upload is complete, with the id of the new file; the object of the file
-- is the last content of each chunk, in the order of the numbers; its row has the size that was
-- declared at the start, whatever the number of bytes; and the session is gone.
pub upload_chunk_handler-IsCompleted :
    {S : Type 0} (storage : Storage S) (laws : StorageLaws storage) (works : Works storage)
    (db : Database) (file_id : ℕ) (upload_id : Bytes) (session : Session) (n : ℕ) (w : World S)
    (parts : Parts) (i j : ℕ) (content whole : Bytes)
    → db.file_id ≡ some file_id
    → Holds storage upload_id session n no_chunks w
    → session.storage_key ≢ []
    → All (λ p. p.0 < n) parts
    → i < n
    → j < n
    → sent parts no_chunks j ≡ none
    → joined n 0 (with_content i content (sent parts no_chunks)) ≡ some whole
    → let before = send storage (some db) upload_id session parts w in
      IsCompleted storage upload_id session file_id whole before
        (upload_chunk_handler storage (some db) (chunk_request upload_id session i content) before)
upload_chunk_handler-IsCompleted storage laws works db file_id upload_id session n w parts i j
      content whole file h nonempty below l lj missing e =
    let before = send storage (some db) upload_id session parts w in
    let filled =
      send-Holds storage laws works (some db) upload_id n parts session j no_chunks w h below lj
        missing in
    let same = marked-same parts session in
    let filled' : Holds storage upload_id
        (record session { chunks_loaded = (marked parts session).chunks_loaded }) n
        (sent parts no_chunks) before =
      subst (λ s. Holds storage upload_id s n (sent parts no_chunks) before) same filled in
    let r =
      last_chunk storage laws works db file_id upload_id _ n i content (sent parts no_chunks) before
        whole file filled' l e nonempty in
    record {
      response = r.response;
      answered = r.answered;
      complete = r.complete;
      file = r.file;
      stored = r.stored;
      ended = r.ended;
      recorded = r.recorded;
    }
