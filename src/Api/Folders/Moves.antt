-- ===== src/Api/Folders/Moves.antt =====
-- The handler that moves a file keeps to the user's rows (internal/api/folders.go).
use file_cheap.Prelude.{
  ◌≡◌, ◌≢◌, refl, sym, ap, ◌∙◌, subst, ℕ, true, Option, some, arith, Bool-cases, Option-cases, inl,
  inr, ◌⊎◌,
}
use file_cheap.Prelude.Key.{◌==◌, nat_key}
use file_cheap.Prelude.Bytes.{bytes_key}
use file_cheap.Prelude.Map.{lookup, insert, lookup-insert}
use file_cheap.Prelude.Action.{ok, ◌>>=◌, answer, refuse, or_refuse, modify, look, >>=-eq-ok}
use file_cheap.Api.Folders.{FiledFile, Tree, move_file}
use file_cheap.Api.Folders.Cascade.{belongs}
use file_cheap.Api.Folders.Owned.{IsOwned, Leaves}
use file_cheap.Api.Folders.Handlers.{
  IdText, blank, invalid, uuid, get_folder_query, FolderCall, find_folder, find_target,
  move_file_handler,
}
use file_cheap.Api.Folders.Steps.{
  Isolates, Isolates-or_refuse, Isolates-require, Isolates-modify, Isolates-reads,
}
use file_cheap.Api.Folders.Writes.{find_folder_found}

module _ (call : FolderCall) (u : ℕ) (tree : Tree) (start : IsOwned tree) where
  moved :
      (id : ℕ) (target : Option ℕ)
      → (move_file id u target tree.files ≡ tree.files)
        ⊎ ((file : FiledFile) × (lookup id tree.files ≡ some file)
            × (file.user_id ≡ u)
            × (move_file id u target tree.files
                ≡ insert id (record file { folder_id = target }) tree.files))
  unfolding move_file
  moved id target = elim (Option-cases (lookup id tree.files)) [
    | inl e ↦ inl (ground (arith, e))
    | inr (file, e) ↦ elim (Bool-cases (file.user_id == u)) [
      | inl q ↦ elim (Bool-cases file.is_deleted) [
        | inl d ↦ inl (ground (arith, e, q, d))
        | inr d ↦ inr (file, e, (nat_key.test_iff file.user_id u).0 q, ground (arith, e, q, d))
      ]
      | inr q ↦ inl (ground (arith, e, q))
    ]
  ]

  moved-IsOwned :
      (id : ℕ) (target : Option ℕ)
      → belongs tree.folders u target ≡ true
      → IsOwned (record tree { files = move_file id u target tree.files })
  moved-IsOwned id target inside = record {
    unique = start.unique;
    parents = start.parents;
    filed = λ i x h. elim (moved id target) [
      | inl e ↦ start.filed i x (sym (ap (lookup i) e) ∙ h)
      | inr (file, row, mine, e) ↦
          let there =
            sym (lookup-insert id i (record file { folder_id = target }) tree.files)
            ∙ sym (ap (lookup i) e)
            ∙ h in
          elim (Bool-cases (id == i)) [
            | inl q ↦ ground (arith, there, q, mine, inside)
            | inr q ↦ start.filed i x (ground (arith, there, q))
          ]
    ];
  }

  moved-Leaves :
      (id : ℕ) (target : Option ℕ) (v : ℕ)
      → v ≢ u
      → Leaves v tree (record tree { files = move_file id u target tree.files })
  moved-Leaves id target v other = record {
    folders = λ j f m. (λ h. h, λ h. h);
    files = λ i x m. elim (moved id target) [
      | inl e ↦ (λ h. ap (lookup i) e ∙ h, λ h. sym (ap (lookup i) e) ∙ h)
      | inr (file, row, mine, e) ↦
          let new = lookup-insert id i (record file { folder_id = target }) tree.files in
          elim (Bool-cases (id == i)) [
            | inl q ↦ (
              λ h. absurd (
                  other (
                    ground (
                      arith,
                      h,
                      m,
                      mine,
                      row,
                      ap (λ k. lookup k tree.files) ((nat_key.test_iff id i).0 q),
                    ))),
              λ h. absurd (other (ground (arith, sym new ∙ sym (ap (lookup i) e) ∙ h, q, m, mine))),
            )
            | inr q ↦ (
              λ h. ap (lookup i) e ∙ new ∙ rw q h,
              λ h. ground (arith, sym new ∙ sym (ap (lookup i) e) ∙ h, q),
            )
          ]
    ];
  }

  move_file-Isolates :
      (id : ℕ) (target : Option ℕ)
      → belongs tree.folders u target ≡ true
      → Isolates u tree (modify (λ t. record t { files = move_file id u target t.files }))
  move_file-Isolates id target inside =
      Isolates-modify start _ (moved-IsOwned id target inside)
        (λ v other. moved-Leaves id target v other)

  find_target_found :
      (u' : ℕ) (text : IdText) (target : Option ℕ)
      → (find_target call u' text tree).0 ≡ ok target
      → belongs tree.folders u' target ≡ true
  unfolding find_target answer refuse ◌>>=◌
  find_target_found u' blank target h = ground (arith, h)
  find_target_found u' invalid target h = absurd (ground (arith, h))
  find_target_found u' (uuid id) target h =
      let (folder, e, h') = >>=-eq-ok (find_folder call get_folder_query id u') _ tree h in
      let (row, mine) = find_folder_found call u' tree get_folder_query id folder e in
      ground (arith, h', row, mine, nat_key.test_iff folder.user_id u')

  find_target-same : (u' : ℕ) (text : IdText) → (find_target call u' text tree).1 ≡ tree
  unfolding find_target answer refuse ◌>>=◌ find_folder look or_refuse
  find_target-same u' blank = refl
  find_target-same u' invalid = refl
  find_target-same u' (uuid id) = ground arith

  pub move_file_handler-Isolates :
      (id_value : Option ℕ) (body : Option IdText)
      → Isolates u tree (move_file_handler call (some u) id_value body)
  unfolding move_file_handler
  move_file_handler-Isolates id_value body = Isolates-or_refuse start _ _ _ (λ u' same.
      let mine : u' ≡ u = ground (arith, same) in
      Isolates-or_refuse start _ _ _ (λ id _. Isolates-or_refuse start _ _ _ (λ text _.
        Isolates-reads start _ _ (find_target-same u' text) (λ target found.
          Isolates-require start _ _ _ (
            subst
              (λ i.
                Isolates u tree (modify (λ t. record t { files = move_file id i target t.files })))
              (sym mine)
              (move_file-Isolates id target (
                subst (λ i. belongs tree.folders i target ≡ true) mine
                  (find_target_found u' text target found))))))))
