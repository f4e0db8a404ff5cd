-- ===== src/Worker/Cleanup/Rows.antt =====
-- The rows that a round of the clean-up takes out (internal/worker/cleanup.go, sql/queries/files.sql).
use file_cheap.Prelude.{
  ◌≡◌, refl, ap, ◌∙◌, ℕ, zero, suc, ◌<◌, ◌≤◌, Bool, List, [], ◌∷◌, length, take, arith, nat_beq_iff,
}
use file_cheap.Prelude.Key.{nat_key}
use file_cheap.Worker.Cleanup.{
  FileRow, is_expired_soft_deleted, is_retention_expired, select, hard_delete, soft_delete,
}

-- The rows without those of the files.
abbrev pub without : List FileRow → List FileRow → List FileRow
without [] rows = rows
without (file ∷ files) rows = without files (hard_delete file.id rows)

hard_delete_twice :
    (i j : ℕ) (rows : List FileRow)
    → hard_delete i (hard_delete j rows) ≡ hard_delete j (hard_delete i rows)
unfolding hard_delete
hard_delete_twice i j [] = refl
hard_delete_twice i j (row ∷ rows) = ground (arith, hard_delete_twice i j rows)

without-hard_delete :
    (files : List FileRow) (i : ℕ) (rows : List FileRow)
    → without files (hard_delete i rows) ≡ hard_delete i (without files rows)
without-hard_delete [] i rows = refl
without-hard_delete (file ∷ files) i rows =
    ap (without files) (hard_delete_twice file.id i rows)
    ∙ without-hard_delete files i (hard_delete file.id rows)

hard_delete_head :
    (row : FileRow) (rows : List FileRow)
    → hard_delete row.id (row ∷ rows) ≡ hard_delete row.id rows
unfolding hard_delete
hard_delete_head row rows = ground (arith, nat_beq_iff row.id row.id)

pub without_self : (rows : List FileRow) → without rows rows ≡ []
unfolding hard_delete
without_self [] = refl
without_self (row ∷ rows) =
    ap (without rows) (hard_delete_head row rows)
    ∙ without-hard_delete rows row.id rows
    ∙ ap (hard_delete row.id) (without_self rows)

pub length-hard_delete : (i : ℕ) (rows : List FileRow) → length (hard_delete i rows) ≤ length rows
unfolding hard_delete
length-hard_delete i [] = omega arith
length-hard_delete i (row ∷ rows) = ground (arith, length-hard_delete i rows)

length-without : (files rows : List FileRow) → length (without files rows) ≤ length rows
length-without [] rows = omega arith
length-without (file ∷ files) rows =
    omega (arith, length-without files (hard_delete file.id rows), length-hard_delete file.id rows)

-- A batch of one file at least leaves fewer.
pub without_fewer :
    (row : FileRow) (files rows : List FileRow)
    → length (without (row ∷ files) (row ∷ rows)) < length (row ∷ rows)
unfolding hard_delete
without_fewer row files rows = ground (
  arith,
  length-without files (hard_delete row.id rows),
  length-hard_delete row.id rows,
  nat_beq_iff row.id row.id,
)

pub select-hard_delete :
    (q : FileRow → Bool) (i : ℕ) (rows : List FileRow)
    → select q (hard_delete i rows) ≡ hard_delete i (select q rows)
unfolding select hard_delete
select-hard_delete q i [] = refl
select-hard_delete q i (row ∷ rows) = ground (arith, select-hard_delete q i rows)

-- A row that is marked as deleted is due for retention no longer.
pub select-soft_delete :
    (now i : ℕ) (rows : List FileRow)
    → select (is_retention_expired now) (soft_delete now i rows)
      ≡ hard_delete i (select (is_retention_expired now) rows)
unfolding select hard_delete soft_delete is_retention_expired
select-soft_delete now i [] = refl
select-soft_delete now i (row ∷ rows) = ground (arith, select-soft_delete now i rows)

-- Nor is it due for its deletion at once.
pub soft_delete_keeps :
    (now i : ℕ) (rows : List FileRow)
    → select (is_expired_soft_deleted now) (soft_delete now i rows)
      ≡ select (is_expired_soft_deleted now) rows
unfolding select soft_delete is_expired_soft_deleted
soft_delete_keeps now i [] = refl
soft_delete_keeps now i (row ∷ rows) = ground (arith, soft_delete_keeps now i rows)

pub take_whole : (n : ℕ) (rows : List FileRow) → length (take n rows) < n → take n rows ≡ rows
take_whole zero rows h = absurd (omega arith)
take_whole (suc n) [] h = refl
take_whole (suc n) (row ∷ rows) h = ap (λ r. row ∷ r) (take_whole n rows (omega arith))
