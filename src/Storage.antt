-- ===== src/Storage.antt =====
-- The interface `Storage` of internal/storage/storage.go, over the state `S` of a store, and what
-- its users rely on. Presigned URLs and the health check change nothing and are left out.
pub mod Memory
use file_cheap.Prelude.{◌≡◌, ◌≢◌, Bool, true, false, Option, none, some}
use file_cheap.Prelude.Bytes.{Bytes}
use file_cheap.Prelude.Int.{ℤ}

pub record Storage (S : Type 0) : Type 0 where
  -- The key, the bytes of the reader (`none` if it fails), the content type and the size; `true` is
  -- a nil error.
  pub upload : Bytes → Option Bytes → Bytes → ℤ → S → Bool × S
  pub download : Bytes → S → Option Bytes
  pub remove : Bytes → S → Bool × S
  pub exists : Bytes → S → Option Bool

-- An upload that succeeds is what the key then holds; a reader that fails makes the upload fail, and
-- an upload that fails leaves every object; a deletion that succeeds removes the object; the
-- objects of other keys stay.
pub record StorageLaws {S : Type 0} (storage : Storage S) : Type 0 where
  pub stored :
      (key content content_type : Bytes) (size : ℤ) (s : S)
      → (storage.upload key (some content) content_type size s).0 ≡ true
      → storage.download key (storage.upload key (some content) content_type size s).1
        ≡ some content
  pub unread :
      (key content_type : Bytes) (size : ℤ) (s : S)
      → (storage.upload key none content_type size s).0 ≡ false
  pub failed :
      (key : Bytes) (reader : Option Bytes) (content_type : Bytes) (size : ℤ) (s : S) (j : Bytes)
      → (storage.upload key reader content_type size s).0 ≡ false
      → storage.download j (storage.upload key reader content_type size s).1 ≡ storage.download j s
  pub others_stay :
      (key : Bytes) (reader : Option Bytes) (content_type : Bytes) (size : ℤ) (s : S) (j : Bytes)
      → j ≢ key
      → storage.download j (storage.upload key reader content_type size s).1 ≡ storage.download j s
  pub removed :
      (key : Bytes) (s : S)
      → (storage.remove key s).0 ≡ true
      → storage.download key (storage.remove key s).1 ≡ none
  pub others_kept :
      (key : Bytes) (s : S) (j : Bytes)
      → j ≢ key
      → storage.download j (storage.remove key s).1 ≡ storage.download j s
