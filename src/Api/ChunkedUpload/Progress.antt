-- ===== src/Api/ChunkedUpload/Progress.antt =====
-- A session that is filled chunk by chunk.
use file_cheap.Prelude.{
  ℕ, ◌<◌, ◌≡◌, ◌≢◌, refl, sym, ap, ◌∙◌, subst, Bool, true, false, Option, none, some, [], arith,
  length, nat_beq, nat_beq_iff, Bool-cases, inl, inr,
}
use file_cheap.Prelude.Key.{nat_key, test_refl}
use file_cheap.Prelude.Bytes.{Bytes, bytes, bytes_key}
use file_cheap.Prelude.Int.{ℤ, pos}
use file_cheap.Prelude.Map.{lookup, insert, lookup-insert}
use file_cheap.Prelude.Map.Retain.{HasUniqueKeys, insert-HasUniqueKeys}
use file_cheap.Prelude.Map.Count.{IsBelow, count_missing, count_below, count_full}
use file_cheap.Storage.{Storage, StorageLaws}
use file_cheap.Api.ChunkedUpload.{Session, World, ChunkRequest, Database, chunk_key, is_complete}
use file_cheap.Api.ChunkedUpload.Chunks.{with_chunk, after_chunk, upload_chunk_handler}
use file_cheap.Api.ChunkedUpload.Joined.{
  Contents, with_content, chunk_key-injective, chunk_key_not_empty,
}

abbrev pub mark : Option Bytes → Option Bool
mark none = none
mark (some content) = some true

mark-none : (o : Option Bytes) → mark o ≡ none → o ≡ none
mark-none none e = refl
mark-none (some content) e = cc

-- A chunk of the owner.
abbrev pub chunk_request : Bytes → Session → ℕ → Bytes → ChunkRequest
chunk_request upload_id session i content = record {
  user_id = some session.user_id;
  upload_id = upload_id;
  chunk = some (pos i);
  body = some content;
}

abbrev octets : Bytes
octets = bytes "application/octet-stream"

module _ {S : Type 0} (storage : Storage S) where
  -- The session of `n` chunks has just the chunks of `c`, and the storage holds them.
  pub record Holds (upload_id : Bytes) (session : Session) (n : ℕ) (c : Contents) (w : World S)
      : Type 0 where
    pub here : lookup upload_id w.sessions ≡ some session
    pub total : session.chunks_total ≡ pos n
    pub unique : HasUniqueKeys session.chunks_loaded
    pub loaded : (i : ℕ) → lookup i session.chunks_loaded ≡ mark (c i)
    pub in_range : (i : ℕ) → c i ≢ none → i < n
    pub stored :
        (i : ℕ) (content : Bytes)
        → c i ≡ some content
        → storage.download (chunk_key session.storage_key i) w.objects ≡ some content

  -- Each upload under a key that is not empty succeeds.
  abbrev pub Works : Type 0
  Works =
      (key : Bytes) (content content_type : Bytes) (size : ℤ) (s : S)
      → key ≢ []
      → (storage.upload key (some content) content_type size s).0 ≡ true

  -- The count of the session tells whether a chunk is missing.
  pub Holds-incomplete :
      (upload_id : Bytes) (session : Session) (n j : ℕ) (c : Contents) (w : World S)
      → Holds upload_id session n c w
      → j < n
      → c j ≡ none
      → is_complete session ≡ false
  Holds-incomplete upload_id session n j c w h l missing =
      let below : IsBelow n session.chunks_loaded =
        λ i v e. h.in_range i (ground (arith, e, h.loaded i)) in
      let absent : lookup j session.chunks_loaded ≡ none = h.loaded j ∙ ap mark missing in
      ground (arith, h.total, count_missing n j session.chunks_loaded h.unique below l absent)

  pub Holds-complete :
      (upload_id : Bytes) (session : Session) (n : ℕ) (c : Contents) (w : World S)
      → Holds upload_id session n c w
      → ((i : ℕ) → i < n → c i ≢ none)
      → is_complete session ≡ true
  Holds-complete upload_id session n c w h all =
      let below : IsBelow n session.chunks_loaded =
        λ i v e. h.in_range i (ground (arith, e, h.loaded i)) in
      let full =
        count_full n session.chunks_loaded h.unique
          (λ i l e. all i l (mark-none (c i) (sym (h.loaded i) ∙ e))) in
      let most = count_below n session.chunks_loaded h.unique below in
      ground (arith, h.total, full, most)

  -- The world after a chunk was stored.
  abbrev pub chunk_stored : Bytes → Session → ℕ → Bytes → World S → World S
  chunk_stored upload_id session i content w = record w {
    sessions = insert upload_id (with_chunk i session) w.sessions;
    objects =
        (storage.upload (chunk_key session.storage_key i) (some content) octets
          (pos (length content)) w.objects).1;
  }

  pub chunk_stored-Holds :
      StorageLaws storage
      → Works
      → (upload_id : Bytes) (session : Session) (n i : ℕ) (content : Bytes) (c : Contents)
        (w : World S)
      → Holds upload_id session n c w
      → i < n
      → Holds upload_id
          (with_chunk i session)
          n
          (with_content i content c)
          (chunk_stored upload_id session i content w)
  chunk_stored-Holds laws works upload_id session n i content c w h l = record {
    here = lookup-insert upload_id upload_id _ w.sessions ∙ rw (test_refl upload_id);
    total = h.total;
    unique = insert-HasUniqueKeys i true session.chunks_loaded h.unique;
    loaded = λ j. ground (arith, lookup-insert i j true session.chunks_loaded, h.loaded j);
    in_range = λ j e. ground (arith, h.in_range j, nat_beq_iff i j);
    stored = λ j other e. elim (Bool-cases (nat_beq i j)) [
      | inl same ↦
          let put : some content ≡ some other = ground arith in
          let kept =
            laws.stored (chunk_key session.storage_key i) content octets (pos (length content))
              w.objects
              (works (chunk_key session.storage_key i) content octets (pos (length content))
                w.objects (chunk_key_not_empty session.storage_key i)) in
          subst
            (λ k.
              storage.download (chunk_key session.storage_key k)
                (chunk_stored upload_id session i content w).objects
              ≡ some other)
            ((nat_beq_iff i j).0 same) (kept ∙ put)
      | inr different ↦
          let apart : chunk_key session.storage_key j ≢ chunk_key session.storage_key i =
            λ k. ground (arith, chunk_key-injective session.storage_key j i k) in
          laws.others_stay (chunk_key session.storage_key i) (some content) octets
            (pos (length content)) w.objects (chunk_key session.storage_key j) apart
          ∙ h.stored j other (ground arith)
    ];
  }

  -- Up to the test whether the session is complete.
  pub upload_chunk_handler-stores :
      Works
      → (db : Option Database) (upload_id : Bytes) (session : Session) (n i : ℕ) (content : Bytes)
        (c : Contents) (w : World S)
      → Holds upload_id session n c w
      → i < n
      → upload_chunk_handler storage db (chunk_request upload_id session i content) w
        ≡ after_chunk storage db upload_id i session
            (record w { objects = (chunk_stored upload_id session i content w).objects })
  unfolding upload_chunk_handler
  upload_chunk_handler-stores works db upload_id session n i content c w h l =
      let ok =
        works (chunk_key session.storage_key i) content octets (pos (length content)) w.objects
          (chunk_key_not_empty session.storage_key i) in
      ground (arith, h.here, h.total, ok)
