-- ===== src/Storage/Memory.antt =====
-- internal/storage/mock.go: the storage in memory, which keeps the laws of the interface.
use file_cheap.Prelude.{◌≡◌, ◌≢◌, refl, ap, Bool, true, false, Option, none, some, [], ◌∷◌, arith}
use file_cheap.Prelude.Key.{test_refl}
use file_cheap.Prelude.Bytes.{Bytes, bytes_key, bytes_test_iff}
use file_cheap.Prelude.Map.{Map, lookup, insert, delete, lookup-insert, lookup-delete}
use file_cheap.Storage.{Storage, StorageLaws}

pub record MemoryFile : Type 0 where
  pub content : Bytes
  pub content_type : Bytes

abbrev pub Files : Type 0
Files = Map Bytes MemoryFile

-- `cancelled` says that the context of the call has an error.
abbrev pub memory_upload : Bool → Bytes → Option Bytes → Bytes → Files → Bool × Files
memory_upload true key reader content_type files = (false, files)
memory_upload false [] reader content_type files = (false, files)
memory_upload false (c ∷ key) none content_type files = (false, files)
memory_upload false (c ∷ key) (some content) content_type files =
    (true, insert (c ∷ key) (record { content = content; content_type = content_type }) files)

abbrev pub memory_download : Bool → Bytes → Files → Option Bytes
memory_download true key files = none
memory_download false key files = elim (lookup key files) [
  | none ↦ none
  | some file ↦ some file.content
]

abbrev pub memory_delete : Bool → Bytes → Files → Bool × Files
memory_delete true key files = (false, files)
memory_delete false key files = (true, delete key files)

-- `Exists`; `none` is an error.
abbrev pub memory_exists : Bool → Bytes → Files → Option Bool
memory_exists true key files = none
memory_exists false key files = some (elim (lookup key files) [ none ↦ false | some file ↦ true ])

abbrev pub memory_storage : Bool → Storage Files
memory_storage cancelled = record {
  upload =
      λ key reader content_type size files. memory_upload cancelled key reader content_type files;
  download = memory_download cancelled;
  remove = memory_delete cancelled;
  exists = memory_exists cancelled;
}

memory_kept :
    (cancelled : Bool) (key : Bytes) (reader : Option Bytes) (content_type : Bytes) (files : Files)
    (j : Bytes)
    → j ≢ key
    → memory_download cancelled j (memory_upload cancelled key reader content_type files).1
      ≡ memory_download cancelled j files
memory_kept true key reader content_type files j h = refl
memory_kept false [] reader content_type files j h = refl
memory_kept false (c ∷ key) none content_type files j h = refl
memory_kept false (c ∷ key) (some content) content_type files j h = ground (
  arith,
  lookup-insert (c ∷ key) j (record { content = content; content_type = content_type }) files,
  bytes_test_iff (c ∷ key) j,
)

memory_stored :
    (cancelled : Bool) (key content content_type : Bytes) (files : Files)
    → (memory_upload cancelled key (some content) content_type files).0 ≡ true
    → memory_download cancelled key
        (memory_upload cancelled key (some content) content_type files).1
      ≡ some content
memory_stored true key content content_type files h = cc
memory_stored false [] content content_type files h = cc
memory_stored false (c ∷ key) content content_type files h = ground (
  arith,
  lookup-insert (c ∷ key) (c ∷ key) (record { content = content; content_type = content_type })
      files,
  test_refl (c ∷ key),
)

memory_unread :
    (cancelled : Bool) (key content_type : Bytes) (files : Files)
    → (memory_upload cancelled key none content_type files).0 ≡ false
memory_unread true key content_type files = refl
memory_unread false [] content_type files = refl
memory_unread false (c ∷ key) content_type files = refl

memory_failed :
    (cancelled : Bool) (key : Bytes) (reader : Option Bytes) (content_type : Bytes) (files : Files)
    → (memory_upload cancelled key reader content_type files).0 ≡ false
    → (memory_upload cancelled key reader content_type files).1 ≡ files
memory_failed true key reader content_type files h = refl
memory_failed false [] reader content_type files h = refl
memory_failed false (c ∷ key) none content_type files h = refl
memory_failed false (c ∷ key) (some content) content_type files h = cc

memory_removed :
    (cancelled : Bool) (key : Bytes) (files : Files)
    → (memory_delete cancelled key files).0 ≡ true
    → memory_download cancelled key (memory_delete cancelled key files).1 ≡ none
memory_removed true key files h = cc
memory_removed false key files h = ground (arith, lookup-delete key key files, test_refl key)

memory_others_kept :
    (cancelled : Bool) (key : Bytes) (files : Files) (j : Bytes)
    → j ≢ key
    → memory_download cancelled j (memory_delete cancelled key files).1
      ≡ memory_download cancelled j files
memory_others_kept true key files j h = refl
memory_others_kept false key files j h =
    ground (arith, lookup-delete key j files, bytes_test_iff key j)

-- The storage in memory keeps the laws that the users of a storage rely on, whether its context is
-- cancelled or not.
pub memory_storage_lem : (cancelled : Bool) → StorageLaws (memory_storage cancelled)
memory_storage_lem cancelled = record {
  stored = λ key content content_type size files h.
      memory_stored cancelled key content content_type files h;
  unread = λ key content_type size files. memory_unread cancelled key content_type files;
  failed = λ key reader content_type size files j h.
      ap (memory_download cancelled j) (memory_failed cancelled key reader content_type files h);
  others_stay = λ key reader content_type size files j h.
      memory_kept cancelled key reader content_type files j h;
  removed = memory_removed cancelled;
  others_kept = memory_others_kept cancelled;
}
