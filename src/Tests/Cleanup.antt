-- ===== src/Tests/Cleanup.antt =====
-- Runs of the clean-up of files.
use file_cheap.Prelude.{
  ℕ, zero, suc, ◌+◌, ◌≡◌, ◌<◌, ◌≤◌, refl, Bool, true, false, none, some, List, [], ◌∷◌, length,
  arith,
}
use file_cheap.Prelude.Bytes.{bytes}
use file_cheap.Storage.Memory.{Files, memory_storage}
use file_cheap.Worker.Cleanup.{
  FileRow, Disk, CleanupEnv, is_expired_soft_deleted, is_retention_expired, select, hard_delete,
  batch_size, seven_days, clean_up, run_cleanup, count_cleaned,
}
use file_cheap.Worker.Cleanup.Ends.{run_cleanup_ends, clean_up_stuck}

abbrev an_env : Bool → CleanupEnv Files
an_env fails = record {
  now = seven_days + 100;
  storage = memory_storage false;
  fails = λ _. fails;
  list_fails = false;
}

abbrev deleted_file : ℕ → FileRow
deleted_file id = record {
  id = id;
  storage_key = bytes "uploads/x";
  deleted_at = some 3;
  created_at = 1;
  retention_days = none;
}

abbrev old_file : FileRow
old_file = record {
  id = 2;
  storage_key = bytes "uploads/y";
  deleted_at = none;
  created_at = 1;
  retention_days = some 2;
}

abbrev disk_of : List FileRow → Disk Files
disk_of rows = record {
  rows = rows;
  objects = [];
  stats = record {
    soft_deleted_cleaned = 0;
    retention_expired = 0;
    storage_delete_errors = 0;
    database_delete_errors = 0;
  };
}

abbrev two_files : Disk Files
two_files = disk_of (deleted_file 1 ∷ old_file ∷ [])

one_deleted : length (select (is_expired_soft_deleted (seven_days + 100)) two_files.rows) < 3
unfolding select is_expired_soft_deleted
one_deleted = omega arith

one_old : length (select (is_retention_expired (seven_days + 100)) two_files.rows) < 3
unfolding select is_retention_expired
one_old = omega arith

run_cleanup_ends_example :
    (end : Disk Files) × (run_cleanup (an_env false) 3 two_files ≡ some end)
    × (select (is_expired_soft_deleted (seven_days + 100)) end.rows ≡ [])
    × (select (is_retention_expired (seven_days + 100)) end.rows ≡ [])
run_cleanup_ends_example =
    run_cleanup_ends (an_env false) (λ _. refl) refl 3 two_files one_deleted one_old

-- So many files that were deleted.
unfoldable deleted_files : ℕ → List FileRow
deleted_files zero = []
deleted_files (suc n) = deleted_file n ∷ deleted_files n

abbrev many_files : Disk Files
many_files = disk_of (deleted_files 120)

a_whole_batch :
    batch_size ≤ length (select (is_expired_soft_deleted (seven_days + 100)) many_files.rows)
unfolding deleted_files select is_expired_soft_deleted
a_whole_batch = omega arith

clean_up_stuck_example :
    clean_up
      (an_env true)
      (is_expired_soft_deleted (seven_days + 100))
      hard_delete
      (count_cleaned (an_env true))
      1000
      many_files
    ≡ none
clean_up_stuck_example =
    clean_up_stuck (an_env true) (is_expired_soft_deleted (seven_days + 100)) hard_delete
      (count_cleaned (an_env true)) (λ _. refl) refl many_files a_whole_batch 1000
