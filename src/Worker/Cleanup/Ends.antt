-- ===== src/Worker/Cleanup/Ends.antt =====
-- When the clean-up of files ends, and what it leaves (internal/worker/cleanup.go).
use file_cheap.Prelude.{
  ◌≡◌, refl, sym, ap, subst, ◌∙◌, ℕ, zero, suc, ◌<◌, ◌≤◌, Bool, true, false, Option, none, some,
  List, [], ◌∷◌, ltb, length, take, Bool-cases, inl, inr, arith,
}
use file_cheap.Prelude.Key.{nat_key}
use file_cheap.Worker.Cleanup.{
  FileRow, CleanupStats, Disk, CleanupEnv, is_expired_soft_deleted, is_retention_expired, select,
  hard_delete, soft_delete, batch_size, delete_object, clean_file, clean_batch, clean_up,
  cleanup_soft_deleted_files, cleanup_retention_expired_files, run_cleanup, count_cleaned,
  count_expired,
}
use file_cheap.Worker.Cleanup.Rows.{
  without, without_self, length-hard_delete, without_fewer, select-hard_delete, select-soft_delete,
  soft_delete_keeps, take_whole,
}

short_lt : (n m : ℕ) → ltb (suc m) (suc n) ≡ true → m < n
short_lt n m h = ground (arith, h)

delete_object_rows :
    {S : Type 0} (env : CleanupEnv S) (file : FileRow) (disk : Disk S)
    → (delete_object env file disk).rows ≡ disk.rows
unfolding delete_object
delete_object_rows env file disk = ground arith

module _ {S : Type 0} (env : CleanupEnv S) (due : FileRow → Bool)
    (change : ℕ → List FileRow → List FileRow) (count : CleanupStats → CleanupStats)
    (leaves : (i : ℕ) (rows : List FileRow)
      → select due (change i rows) ≡ hard_delete i (select due rows))
    (never : (i : ℕ) → env.fails i ≡ false) (lists : env.list_fails ≡ false) where
  clean_file_rows :
      (file : FileRow) (disk : Disk S)
      → (clean_file env change count file disk).rows ≡ change file.id disk.rows
  unfolding clean_file
  clean_file_rows file disk =
      rw (never file.id) (ap (change file.id) (delete_object_rows env file disk))

  clean_batch_rows :
      (files : List FileRow) (disk : Disk S)
      → select due (clean_batch env change count files disk).rows
        ≡ without files (select due disk.rows)
  unfolding clean_batch
  clean_batch_rows [] disk = refl
  clean_batch_rows (file ∷ files) disk =
      clean_batch_rows files (clean_file env change count file disk)
      ∙ ap (without files) (ap (select due) (clean_file_rows file disk) ∙ leaves file.id disk.rows)

  -- The loop ended, no file is due, and the rows have the property.
  abbrev Cleaned : (List FileRow → Type 0) → Option (Disk S) → Type 0
  Cleaned P result = (end : Disk S) × (result ≡ some end) × (select due end.rows ≡ []) × P end.rows

  module _ (P : List FileRow → Type 0)
      (keeps : (i : ℕ) (rows : List FileRow) → P rows → P (change i rows)) where
    clean_batch_keeps :
        (files : List FileRow) (disk : Disk S)
        → P disk.rows
        → P (clean_batch env change count files disk).rows
    unfolding clean_batch
    clean_batch_keeps [] disk h = h
    clean_batch_keeps (file ∷ files) disk h =
        clean_batch_keeps files (clean_file env change count file disk)
          (subst P (sym (clean_file_rows file disk)) (keeps file.id disk.rows h))

    clean_up_round :
        (fuel : ℕ) (disk : Disk S)
        → P disk.rows
        → (L : List FileRow) → select due disk.rows ≡ L
        → ((d : Disk S)
            → length (select due d.rows) < length L
            → P d.rows
            → Cleaned P (clean_up env due change count fuel d))
        → Cleaned P (clean_up env due change count (suc fuel) disk)
    unfolding clean_up
    clean_up_round fuel disk h [] e ih = (disk, ground (arith, e, lists), e, h)
    clean_up_round fuel disk h (row ∷ L) e ih =
        let files : List FileRow = row ∷ take 99 L in
        let disk' = clean_batch env change count files disk in
        let kept = clean_batch_keeps files disk h in
        let left = clean_batch_rows files disk ∙ ap (without files) e in
        elim (Bool-cases (ltb (suc (length (take 99 L))) batch_size)) [
          | inl short ↦ (
            disk',
            ground (arith, e, lists, short),
            left
                ∙ ap (λ (l : List FileRow). without (row ∷ l) (row ∷ L))
                    (take_whole 99 L (short_lt 99 (length (take 99 L)) short))
                ∙ without_self (row ∷ L),
            kept,
          )
          | inr full ↦
              let (end, r, none_due, p) =
                ih disk' (rw left (without_fewer row (take 99 L) L)) kept in
              (end, ground (arith, e, lists, full, r), none_due, p)
        ]

    clean_up_ends :
        (fuel : ℕ) (disk : Disk S)
        → length (select due disk.rows) < fuel
        → P disk.rows
        → Cleaned P (clean_up env due change count fuel disk)
    clean_up_ends zero disk h p = absurd (omega arith)
    clean_up_ends (suc fuel) disk h p =
        clean_up_round fuel disk p (select due disk.rows) refl
          (λ d less q. clean_up_ends fuel d (omega arith) q)

module _ {S : Type 0} (env : CleanupEnv S) where
  run_cleanup_at :
      (fuel : ℕ) (disk d : Disk S)
      → cleanup_soft_deleted_files env fuel disk ≡ some d
      → run_cleanup env fuel disk ≡ cleanup_retention_expired_files env fuel d
  unfolding run_cleanup
  run_cleanup_at fuel disk d h = rw (h, run_cleanup) refl

  -- Where no query fails, a clean-up ends, with more fuel than there are files due in either way. Then
  -- no file is left that was deleted more than seven days ago, and none whose retention is over and
  -- that is not deleted. The deletions in the storage may fail.
  pub run_cleanup_ends :
      ((i : ℕ) → env.fails i ≡ false)
      → env.list_fails ≡ false
      → (fuel : ℕ) (disk : Disk S)
      → length (select (is_expired_soft_deleted env.now) disk.rows) < fuel
      → length (select (is_retention_expired env.now) disk.rows) < fuel
      → (end : Disk S) × (run_cleanup env fuel disk ≡ some end)
        × (select (is_expired_soft_deleted env.now) end.rows ≡ [])
        × (select (is_retention_expired env.now) end.rows ≡ [])
  unfolding run_cleanup
  run_cleanup_ends never lists fuel disk h₁ h₂ =
      let soft = is_expired_soft_deleted env.now in
      let past = is_retention_expired env.now in
      let (d, e, none_soft, few) =
        clean_up_ends env soft hard_delete (count_cleaned env) (select-hard_delete soft) never lists
          (λ rows. length (select past rows) < fuel)
          (λ i rows h.
            rw (select-hard_delete past i rows)
              (omega (arith, length-hard_delete i (select past rows))))
          fuel disk h₁ h₂ in
      let (end, e', none_past, still) =
        clean_up_ends env past (soft_delete env.now) (count_expired env)
          (select-soft_delete env.now) never lists (λ rows. select soft rows ≡ [])
          (λ i rows h. soft_delete_keeps env.now i rows ∙ h) fuel d few none_soft in
      (end, run_cleanup_at fuel disk d e ∙ e', still, none_past)

length-take : (n : ℕ) (rows : List FileRow) → n ≤ length rows → length (take n rows) ≡ n
length-take zero rows h = refl
length-take (suc n) [] h = absurd (omega arith)
length-take (suc n) (row ∷ rows) h = ap suc (length-take n rows (omega arith))

module _ {S : Type 0} (env : CleanupEnv S) (due : FileRow → Bool)
    (change : ℕ → List FileRow → List FileRow) (count : CleanupStats → CleanupStats)
    (always : (i : ℕ) → env.fails i ≡ true) where
  clean_batch_stuck :
      (files : List FileRow) (disk : Disk S)
      → (clean_batch env change count files disk).rows ≡ disk.rows
  unfolding clean_batch clean_file
  clean_batch_stuck [] disk = refl
  clean_batch_stuck (file ∷ files) disk =
      clean_batch_stuck files (clean_file env change count file disk)
      ∙ rw (always file.id) (delete_object_rows env file disk)

  full_round :
      env.list_fails ≡ false
      → (fuel : ℕ) (disk : Disk S) (file : FileRow) (more : List FileRow)
      → take batch_size (select due disk.rows) ≡ file ∷ more
      → ltb (suc (length more)) batch_size ≡ false
      → clean_up env due change count (suc fuel) disk
        ≡ clean_up env due change count fuel (clean_batch env change count (file ∷ more) disk)
  unfolding clean_up
  full_round lists fuel disk file more e h = ground (arith, lists, e, h)

  stuck_round :
      env.list_fails ≡ false
      → (fuel : ℕ) (disk : Disk S) (L : List FileRow) → select due disk.rows ≡ L
      → batch_size ≤ length L
      → ((d : Disk S) → select due d.rows ≡ L → clean_up env due change count fuel d ≡ none)
      → clean_up env due change count (suc fuel) disk ≡ none
  stuck_round lists fuel disk [] e h ih = absurd (omega arith)
  stuck_round lists fuel disk (row ∷ L) e h ih =
      let full : length (take 99 L) ≡ 99 = length-take 99 L (omega arith) in
      let same =
        ih (clean_batch env change count (row ∷ take 99 L) disk)
          (ap (select due) (clean_batch_stuck (row ∷ take 99 L) disk) ∙ e) in
      let long : ltb (suc (length (take 99 L))) batch_size ≡ false = rw full refl in
      full_round lists fuel disk row (take 99 L) (ap (take batch_size) e) long ∙ same

  -- Where the query for the files works, the change of a file in the database always fails and a whole batch of files is due, the
  -- loop of a clean-up never ends, whatever the fuel.
  pub clean_up_stuck :
      env.list_fails ≡ false
      → (disk : Disk S) → batch_size ≤ length (select due disk.rows)
      → (fuel : ℕ) → clean_up env due change count fuel disk ≡ none
  unfolding clean_up
  clean_up_stuck lists disk h zero = refl
  clean_up_stuck lists disk h (suc fuel) =
      stuck_round lists fuel disk (select due disk.rows) refl h
        (λ d e. clean_up_stuck lists d (rw e h) fuel)
