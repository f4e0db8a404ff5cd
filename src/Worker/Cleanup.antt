-- ===== src/Worker/Cleanup.antt =====
-- The clean-up of files: internal/worker/cleanup.go with its queries (sql/queries/files.sql). The clock
-- stands still while it runs, and a query or a deletion that fails for a file fails each time. A
-- loop takes fuel; `none` is a loop that has not ended.
pub mod Rows
pub mod Ends
use file_cheap.Prelude.{
  ℕ, zero, suc, ◌+◌, ◌*◌, ◌^◌, Bool, true, false, ◌&&◌, not, Option, none, some, List, [], ◌∷◌,
  if◌then◌else◌, ltb, length, take,
}
use file_cheap.Prelude.Key.{◌==◌, nat_key}
use file_cheap.Prelude.Bytes.{Bytes}
use file_cheap.Storage.{Storage}

-- A row of `files`, with the days of retention if its owner has settings.
pub record FileRow : Type 0 where
  pub id : ℕ
  pub storage_key : Bytes
  pub deleted_at : Option ℕ
  pub created_at : ℕ
  pub retention_days : Option ℕ

pub record CleanupStats : Type 0 where
  pub soft_deleted_cleaned : ℕ
  pub retention_expired : ℕ
  pub storage_delete_errors : ℕ
  pub database_delete_errors : ℕ

pub record Disk (S : Type 0) : Type 0 where
  pub rows : List FileRow
  pub objects : S
  pub stats : CleanupStats

-- A day and a week, in nanoseconds.
abbrev pub one_day : ℕ
one_day = 24 * 3600 * 10 ^ 9

abbrev pub seven_days : ℕ
seven_days = 7 * one_day

-- The rows that `ListExpiredSoftDeletedFiles` and `ListRetentionExpiredFiles` choose from.
unfoldable pub is_expired_soft_deleted : ℕ → FileRow → Bool
is_expired_soft_deleted now row = elim row.deleted_at [
  | none ↦ false
  | some t ↦ ltb (t + seven_days) now
]

unfoldable pub is_retention_expired : ℕ → FileRow → Bool
is_retention_expired now row = elim row.deleted_at [
  | none ↦ elim row.retention_days [
    | none ↦ false
    | some days ↦ ltb (row.created_at + days * one_day) now
  ]
  | some t ↦ false
]

unfoldable pub select : (FileRow → Bool) → List FileRow → List FileRow
select due [] = []
select due (row ∷ rows) = if due row then row ∷ select due rows else select due rows

-- `HardDeleteFile`.
unfoldable pub hard_delete : ℕ → List FileRow → List FileRow
hard_delete id [] = []
hard_delete id (row ∷ rows) =
    if row.id == id then hard_delete id rows else row ∷ hard_delete id rows

-- `SoftDeleteFile`.
unfoldable pub soft_delete : ℕ → ℕ → List FileRow → List FileRow
soft_delete now id [] = []
soft_delete now id (row ∷ rows) =
    let rest = soft_delete now id rows in
    elim row.deleted_at [
      | some t ↦ row ∷ rest
      | none ↦ if row.id == id then record row { deleted_at = some now } ∷ rest else row ∷ rest
    ]

abbrev pub batch_size : ℕ
batch_size = 100

-- What a run meets: the storage, the files whose change in the database fails, and the queries that
-- list files, which may fail.
pub record CleanupEnv (S : Type 0) : Type 0 where
  pub now : ℕ
  pub storage : Storage S
  pub fails : ℕ → Bool
  pub list_fails : Bool

module _ {S : Type 0} (env : CleanupEnv S) where
  -- The object of a file is deleted, if it has a key; an error is counted.
  unfoldable pub delete_object : FileRow → Disk S → Disk S
  delete_object file disk = elim file.storage_key [
    | [] ↦ disk
    | c ∷ key ↦
        let (ok, objects) = env.storage.remove (c ∷ key) disk.objects in
        if ok then record disk { objects = objects } else record disk {
          objects = objects;
          stats = record disk.stats {
            storage_delete_errors = disk.stats.storage_delete_errors + 1;
          };
        }
  ]

  -- One file of a batch: its object, and its row by `change`; `count` counts a success.
  unfoldable pub clean_file :
      (ℕ → List FileRow → List FileRow) → (CleanupStats → CleanupStats) → FileRow → Disk S → Disk S
  clean_file change count file disk =
      let disk' = delete_object file disk in
      if env.fails file.id
      then record disk' {
        stats = record disk'.stats {
          database_delete_errors = disk'.stats.database_delete_errors + 1;
        };
      }
      else record disk' { rows = change file.id disk'.rows; stats = count disk'.stats }

  unfoldable pub clean_batch :
      (ℕ → List FileRow → List FileRow)
      → (CleanupStats → CleanupStats)
      → List FileRow
      → Disk S
      → Disk S
  clean_batch change count [] disk = disk
  clean_batch change count (file ∷ files) disk =
      clean_batch change count files (clean_file change count file disk)

  -- The loop that both clean-ups have: a batch of the files that are due, until one is not full.
  unfoldable pub clean_up :
      (FileRow → Bool)
      → (ℕ → List FileRow → List FileRow)
      → (CleanupStats → CleanupStats)
      → ℕ
      → Disk S
      → Option (Disk S)
  clean_up due change count zero disk = none
  clean_up due change count (suc fuel) disk =
      let files = take batch_size (select due disk.rows) in
      let disk' = clean_batch change count files disk in
      let rest = clean_up due change count fuel disk' in
      if env.list_fails then some disk else elim files [
        | [] ↦ some disk
        | file ∷ more ↦ if ltb (suc (length more)) batch_size then some disk' else rest
      ]

  abbrev pub count_cleaned : CleanupStats → CleanupStats
  count_cleaned stats = record stats { soft_deleted_cleaned = stats.soft_deleted_cleaned + 1 }

  abbrev pub count_expired : CleanupStats → CleanupStats
  count_expired stats = record stats { retention_expired = stats.retention_expired + 1 }

  -- `cleanupSoftDeletedFiles` and `cleanupRetentionExpiredFiles`.
  abbrev pub cleanup_soft_deleted_files : ℕ → Disk S → Option (Disk S)
  cleanup_soft_deleted_files = clean_up (is_expired_soft_deleted env.now) hard_delete count_cleaned

  abbrev pub cleanup_retention_expired_files : ℕ → Disk S → Option (Disk S)
  cleanup_retention_expired_files =
      clean_up (is_retention_expired env.now) (soft_delete env.now) count_expired

  -- `RunCleanup`: one after the other.
  unfoldable pub run_cleanup : ℕ → Disk S → Option (Disk S)
  run_cleanup fuel disk = elim (cleanup_soft_deleted_files fuel disk) [
    | none ↦ none
    | some disk' ↦ cleanup_retention_expired_files fuel disk'
  ]
