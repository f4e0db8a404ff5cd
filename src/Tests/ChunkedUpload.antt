-- ===== src/Tests/ChunkedUpload.antt =====
-- Runs of an upload in chunks, on the storage in memory.
use file_cheap.Prelude.{◌≡◌, refl, ◌⊎◌, inl, inr, true, false, none, some, [], ◌∷◌, arith}
use file_cheap.Prelude.Bytes.{bytes, bytes_key}
use file_cheap.Prelude.Int.{pos}
use file_cheap.Prelude.Map.{lookup}
use file_cheap.Storage.{StorageLaws}
use file_cheap.Storage.Memory.{Files, memory_storage, memory_storage_lem}
use file_cheap.Api.ChunkedUpload.{Session, World, ApiError, Database}
use file_cheap.Api.ChunkedUpload.Init.{
  Caller, InitUploadRequest, InitUploadResponse, new_session, init_chunked_upload_handler,
}
use file_cheap.Api.ChunkedUpload.Chunks.{upload_chunk_handler}
use file_cheap.Api.ChunkedUpload.Joined.{joined}
use file_cheap.Api.ChunkedUpload.Progress.{Holds, Works, chunk_request}
use file_cheap.Api.ChunkedUpload.Sent.{Parts, no_chunks, sent, send}
use file_cheap.Api.ChunkedUpload.Completed.{IsCompleted, upload_chunk_handler-IsCompleted}
use file_cheap.Api.ChunkedUpload.Started.{IsStarted, init_chunked_upload_handler-IsStarted}

abbrev caller : Caller
caller = record { user_id = 4; user_text = bytes "u4"; upload_id = bytes "id" }

abbrev request : InitUploadRequest
request = record { filename = bytes "a.txt"; content_type = bytes "text/plain"; total_size = pos 5 }

abbrev empty : World Files
empty = record { sessions = []; objects = []; files = []; tasks = record { jobs = []; queue = [] } }

abbrev session : Session
session = record {
  id = bytes "id";
  user_id = 4;
  filename = bytes "a.txt";
  content_type = bytes "text/plain";
  total_size = pos 5;
  chunks_total = pos 3;
  chunks_loaded = [];
  storage_key = bytes "uploads/u4/id/a.txt";
  created_at = 9;
}

the_session : new_session (pos 2) caller request 9 ≡ session
unfolding new_session
the_session = refl

abbrev started : World Files
started = record empty { sessions = (bytes "id", session) ∷ [] }

memory_storage_lem_example : StorageLaws (memory_storage true)
memory_storage_lem_example = memory_storage_lem true

init_chunked_upload_handler-IsStarted_example :
    let (reply, w') =
      init_chunked_upload_handler (pos 2) (some caller) (some request) none none 9 empty in
    ((e : ApiError) × (reply ≡ inl e) × (w' ≡ empty))
    ⊎ ((response : InitUploadResponse) × (reply ≡ inr response)
        × IsStarted (memory_storage false) caller request 5 2 9 w' response)
init_chunked_upload_handler-IsStarted_example =
    init_chunked_upload_handler-IsStarted (memory_storage false) caller request none none 5 2 9
      empty refl (omega arith) (omega arith) (omega arith)

works : Works (memory_storage false)
works [] content content_type size s h = absurd (h refl)
works (c ∷ key) content content_type size s h = refl

holds : Holds (memory_storage false) (bytes "id") session 3 no_chunks started
unfolding lookup
holds = record {
  here = refl;
  total = refl;
  unique = tt;
  loaded = λ i. refl;
  in_range = λ i given. absurd (given refl);
  stored = λ i content e. cc;
}

-- The last chunk first, and the first one twice.
abbrev parts : Parts
parts = (2, bytes "e") ∷ (0, bytes "xx") ∷ (0, bytes "ab") ∷ []

abbrev db : Database
db = record {
  file_id = some 77;
  has_broker = true;
  answers = record { job_id = none; queue_id = none };
}

upload_chunk_handler-IsCompleted_example :
    let before = send (memory_storage false) (some db) (bytes "id") session parts started in
    IsCompleted (memory_storage false) (bytes "id") session 77 (bytes "abcde") before (
      upload_chunk_handler
        (memory_storage false)
        (some db)
        (chunk_request (bytes "id") session 1 (bytes "cd"))
        before)
unfolding sent joined
upload_chunk_handler-IsCompleted_example =
    upload_chunk_handler-IsCompleted (memory_storage false) (memory_storage_lem false) works db 77
      (bytes "id") session 3 started parts 1 1 (bytes "cd") (bytes "abcde") refl holds (λ e. cc)
      (omega arith, (omega arith, (omega arith, tt))) (omega arith) (omega arith) refl refl
