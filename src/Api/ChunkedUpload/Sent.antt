-- ===== src/Api/ChunkedUpload/Sent.antt =====
-- Chunks sent one after another, while one is missing.
use file_cheap.Prelude.{ℕ, ◌<◌, ◌≡◌, refl, Option, none, List, [], ◌∷◌, arith, All}
use file_cheap.Prelude.Bytes.{Bytes, bytes_key}
use file_cheap.Storage.{Storage, StorageLaws}
use file_cheap.Api.ChunkedUpload.{Session, World, FileRow, Database, or_octet_stream}
use file_cheap.Api.ChunkedUpload.Chunks.{with_chunk, after_chunk, upload_chunk_handler}
use file_cheap.Api.ChunkedUpload.Joined.{Contents, with_content}
use file_cheap.Api.ChunkedUpload.Progress.{
  chunk_request, Holds, Works, Holds-incomplete, chunk_stored, chunk_stored-Holds,
  upload_chunk_handler-stores,
}

-- The numbers and the bytes of chunks, in the order in which they are sent.
abbrev pub Parts : Type 0
Parts = List (ℕ × Bytes)

abbrev pub no_chunks : Contents
no_chunks i = none

-- The last bytes sent for each number.
unfoldable pub sent : Parts → Contents → Contents
sent [] c = c
sent ((i, content) ∷ parts) c = sent parts (with_content i content c)

sent-missing : (parts : Parts) (c : Contents) (j : ℕ) → sent parts c j ≡ none → c j ≡ none
unfolding sent
sent-missing [] c j e = e
sent-missing ((i, content) ∷ parts) c j e =
    ground (arith, sent-missing parts (with_content i content c) j e)

-- The session with its chunks marked.
unfoldable pub marked : Parts → Session → Session
marked [] session = session
marked ((i, content) ∷ parts) session = marked parts (with_chunk i session)

-- The row of the file.
abbrev pub row_of : ℕ → Session → FileRow
row_of file_id session = record {
  id = file_id;
  user_id = session.user_id;
  filename = session.filename;
  content_type = or_octet_stream session.content_type;
  size_bytes = session.total_size;
  storage_key = session.storage_key;
}

module _ {S : Type 0} (storage : Storage S) where
  -- The parts are sent by the owner, one after another.
  unfoldable pub send : Option Database → Bytes → Session → Parts → World S → World S
  send db upload_id session [] w = w
  send db upload_id session ((i, content) ∷ parts) w =
      send db upload_id session parts
        (upload_chunk_handler storage db (chunk_request upload_id session i content) w).1

  module _ (laws : StorageLaws storage) (works : Works storage) (db : Option Database)
      (upload_id : Bytes) (n : ℕ) where
    -- A chunk after which another one is missing.
    one_more :
        (session : Session) (i j : ℕ) (content : Bytes) (c : Contents) (w : World S)
        → Holds storage upload_id session n c w
        → i < n
        → j < n
        → with_content i content c j ≡ none
        → (upload_chunk_handler storage db (chunk_request upload_id session i content) w).1
          ≡ chunk_stored storage upload_id session i content w
    unfolding after_chunk
    one_more session i j content c w h l lj missing =
        let next = chunk_stored-Holds storage laws works upload_id session n i content c w h l in
        let more =
          Holds-incomplete storage upload_id (with_chunk i session) n j (with_content i content c) _
            next lj missing in
        rw (upload_chunk_handler-stores storage works db upload_id session n i content c w h l)
          (rw more)

    -- While a chunk is missing, the session holds just what was sent.
    pub send-Holds :
        (parts : Parts) (session : Session) (j : ℕ) (c : Contents) (w : World S)
        → Holds storage upload_id session n c w
        → All (λ p. p.0 < n) parts
        → j < n
        → sent parts c j ≡ none
        → Holds storage upload_id
            (marked parts session)
            n
            (sent parts c)
            (send db upload_id session parts w)
    unfolding send sent marked
    send-Holds [] session j c w h l lj missing = h
    send-Holds ((i, content) ∷ parts) session j c w h (l, ls) lj missing =
        let now = sent-missing parts (with_content i content c) j missing in
        let next = chunk_stored-Holds storage laws works upload_id session n i content c w h l in
        rw (one_more session i j content c w h l lj now) (
          send-Holds parts (with_chunk i session) j (with_content i content c) _ next ls lj missing)

pub marked-same :
    (parts : Parts) (session : Session)
    → marked parts session ≡ record session { chunks_loaded = (marked parts session).chunks_loaded }
unfolding marked
marked-same [] session = refl
marked-same ((i, content) ∷ parts) session = marked-same parts (with_chunk i session)
