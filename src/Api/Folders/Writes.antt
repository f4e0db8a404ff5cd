-- ===== src/Api/Folders/Writes.antt =====
-- The handlers that write a folder keep to the user's rows
-- (internal/api/folders.go).
use file_cheap.Prelude.{
  ◌≡◌, ◌≢◌, refl, sym, ap, ◌∙◌, subst, ℕ, Bool, true, Option, none, some, if◌then◌else◌, arith,
  Bool-cases, Option-cases, inl, inr,
}
use file_cheap.Prelude.Key.{◌==◌, nat_key}
use file_cheap.Prelude.Bytes.{Bytes, bytes_key}
use file_cheap.Prelude.Map.{lookup, insert, lookup-insert}
use file_cheap.Prelude.Map.Retain.{insert-HasUniqueKeys}
use file_cheap.Prelude.Action.{ok, ◌>>=◌, ◌>>◌, answer, refuse, or_refuse, modify, look, >>=-eq-ok}
use file_cheap.Api.Folders.{Folder, Folders, Tree, get_folder, create_folder, update_folder}
use file_cheap.Api.Folders.Cascade.{belongs}
use file_cheap.Api.Folders.Owned.{IsOwned, Leaves}
use file_cheap.Api.Folders.Handlers.{
  IdText, blank, invalid, uuid, FolderQuery, get_folder_query, get_parent_query,
  create_folder_query, update_folder_query, FolderCall, FolderRequest, find_folder, find_parent,
  parent_of, create_folder_handler, update_folder_handler,
}
use file_cheap.Api.Folders.Steps.{
  Isolates, Isolates-or_refuse, Isolates-require, Isolates-look, Isolates-modify_then,
  Isolates-reads,
}

pub get_folder_found :
    (id u : ℕ) (folders : Folders) (f : Folder)
    → get_folder id u folders ≡ some f
    → (lookup id folders ≡ some f) × (f.user_id ≡ u)
unfolding get_folder
get_folder_found id u folders f h = elim (Option-cases (lookup id folders)) [
  | inl e ↦ absurd (ground (arith, h, e))
  | inr (g, e) ↦ (ground (arith, h, e), ground (arith, h, e, nat_key.test_iff g.user_id u))
]

-- The writing of a row of the user, in a folder of the user.
module _ (tree : Tree) (start : IsOwned tree) (id : ℕ) (new : Folder)
    (fresh : (old : Folder) → lookup id tree.folders ≡ some old → old.user_id ≡ new.user_id)
    (inside : belongs tree.folders new.user_id new.parent_id ≡ true) where
  belongs-insert :
      (user_id : ℕ) (o : Option ℕ)
      → belongs tree.folders user_id o ≡ true
      → belongs (insert id new tree.folders) user_id o ≡ true
  belongs-insert user_id none b = refl
  belongs-insert user_id (some p) b = elim (Option-cases (lookup p tree.folders)) [
    | inl e ↦ absurd (ground (arith, e, b))
    | inr (g, e) ↦ elim (Bool-cases (id == p)) [
      | inl q ↦
          let same = fresh g (ap (λ i. lookup i tree.folders) ((nat_key.test_iff id p).0 q) ∙ e) in
          ground (arith, e, b, q, same, lookup-insert id p new tree.folders)
      | inr q ↦ ground (arith, e, b, q, lookup-insert id p new tree.folders)
    ]
  ]

  insert-IsOwned : IsOwned (record tree { folders = insert id new tree.folders })
  insert-IsOwned = record {
    unique = insert-HasUniqueKeys id new tree.folders start.unique;
    parents = λ j f h. belongs-insert f.user_id f.parent_id (elim (Bool-cases (id == j)) [
      | inl q ↦ ground (arith, h, q, inside, lookup-insert id j new tree.folders)
      | inr q ↦ start.parents j f (ground (arith, h, q, lookup-insert id j new tree.folders))
    ]);
    filed = λ i x h. belongs-insert x.user_id x.folder_id (start.filed i x h);
  }

  insert-Leaves :
      (v : ℕ)
      → v ≢ new.user_id
      → Leaves v tree (record tree { folders = insert id new tree.folders })
  insert-Leaves v other = record {
    folders = λ j f mine. elim (Bool-cases (id == j)) [
      | inl q ↦ (
        λ h. absurd (
            other (
              sym mine
              ∙ fresh f (ap (λ i. lookup i tree.folders) ((nat_key.test_iff id j).0 q) ∙ h))),
        λ h. absurd (other (ground (arith, h, q, mine, lookup-insert id j new tree.folders))),
      )
      | inr q ↦ rw (lookup-insert id j new tree.folders, q) (λ h. h, λ h. h)
    ];
    files = λ i x mine. (λ h. h, λ h. h);
  }

module _ (call : FolderCall) (u : ℕ) (tree : Tree) where
  pub find_folder_found :
      (query : FolderQuery) (id : ℕ) (folder : Folder)
      → (find_folder call query id u tree).0 ≡ ok folder
      → (lookup id tree.folders ≡ some folder) × (folder.user_id ≡ u)
  unfolding find_folder look ◌>>=◌ or_refuse
  find_folder_found query id folder h =
      get_folder_found id u tree.folders folder (ground (arith, h))

  find_folder-same : (query : FolderQuery) (id : ℕ) → (find_folder call query id u tree).1 ≡ tree
  unfolding find_folder look ◌>>=◌ or_refuse
  find_folder-same query id = ground arith

  find_parent_found :
      (text : IdText) (parent : Option (ℕ × Bytes))
      → (find_parent call u text tree).0 ≡ ok parent
      → belongs tree.folders u (parent_of parent) ≡ true
  unfolding find_parent answer refuse
  find_parent_found blank parent h = ground (arith, h)
  find_parent_found invalid parent h = absurd (ground (arith, h))
  find_parent_found (uuid id) parent h =
      let (folder, e, h') = >>=-eq-ok (find_folder call get_parent_query id u) _ tree h in
      let (row, mine) = find_folder_found get_parent_query id folder e in
      ground (arith, h', row, mine, nat_key.test_iff folder.user_id u)

  find_parent-same : (text : IdText) → (find_parent call u text tree).1 ≡ tree
  unfolding find_parent answer refuse ◌>>=◌ find_folder look or_refuse
  find_parent-same blank = refl
  find_parent-same invalid = refl
  find_parent-same (uuid id) = ground arith

create_folder_gives :
    (id : ℕ) (new : Folder) (folders folders' : Folders)
    → create_folder id new folders ≡ some folders'
    → (lookup id folders ≡ none) × (folders' ≡ insert id new folders)
unfolding create_folder
create_folder_gives id new folders folders' h = (ground (arith, h), ground (arith, h))

update_folder_gives :
    (id : ℕ) (new : Folder) (folders folders' : Folders)
    → update_folder id new folders ≡ some folders'
    → ((old : Folder) → lookup id folders ≡ some old → old.user_id ≡ new.user_id)
      × (folders' ≡ insert id new folders)
unfolding update_folder get_folder
update_folder_gives id new folders folders' h =
    (λ old e. ground (arith, h, e, nat_key.test_iff old.user_id new.user_id), ground (arith, h))

module _ (call : FolderCall) (u : ℕ) (tree : Tree) (start : IsOwned tree) where
  -- The writing of a row, at the end of a handler.
  written-Isolates :
      {B : Type 0} (id : ℕ) (new : Folder) (folders : Folders) (b : B)
      → folders ≡ insert id new tree.folders
      → new.user_id ≡ u
      → ((old : Folder) → lookup id tree.folders ≡ some old → old.user_id ≡ new.user_id)
      → belongs tree.folders u new.parent_id ≡ true
      → Isolates u tree (modify (λ t. record t { folders = folders }) >> answer b)
  written-Isolates id new folders b e mine fresh inside =
      let inside' : belongs tree.folders new.user_id new.parent_id ≡ true =
        subst (λ i. belongs tree.folders i new.parent_id ≡ true) (sym mine) inside in
      Isolates-modify_then start (λ t. record t { folders = folders }) b
        (subst (λ (fs : Folders). IsOwned (record tree { folders = fs })) (sym e)
          (insert-IsOwned tree start id new fresh inside'))
        (λ v other.
          subst (λ (fs : Folders). Leaves v tree (record tree { folders = fs })) (sym e)
            (insert-Leaves tree start id new fresh inside' v (λ q. other (q ∙ mine))))

  made_by :
      {A : Type 0} {o : Option A} {a : A} (failed : Bool)
      → (if failed then none else o) ≡ some a
      → o ≡ some a
  made_by failed h = ground (arith, h)

  -- The parent after an update is the one that is asked for, or the present one.
  new_parent :
      (u' id : ℕ) (existing : Folder) (asked : Option (ℕ × Bytes))
      → u' ≡ u
      → lookup id tree.folders ≡ some existing
      → existing.user_id ≡ u'
      → belongs tree.folders u' (parent_of asked) ≡ true
      → belongs tree.folders u
          (elim asked [ none ↦ existing.parent_id | some parent ↦ some parent.0 ])
        ≡ true
  new_parent u' id existing none same row mine b =
      subst (λ i. belongs tree.folders i existing.parent_id ≡ true) (mine ∙ same)
        (start.parents id existing row)
  new_parent u' id existing (some (p, path)) same row mine b =
      subst (λ i. belongs tree.folders i (some p) ≡ true) same b

  pub create_folder_handler-Isolates :
      (body : Option FolderRequest) → Isolates u tree (create_folder_handler call (some u) body)
  unfolding create_folder_handler
  create_folder_handler-Isolates body = Isolates-or_refuse start _ _ _ (λ u' same.
      Isolates-or_refuse start _ _ _ (λ req _. Isolates-require start _ _ _ (
        Isolates-require start _ _ _ (
          Isolates-reads start _ _ (find_parent-same call u' tree req.parent_id) (λ parent e.
            Isolates-look start _ _ (
              Isolates-or_refuse start _ _ _ (λ folders made.
                let mine : u' ≡ u = ground (arith, same) in
                let made' = made_by (call.fails create_folder_query) made in
                let (absent, e') = create_folder_gives call.new_id _ tree.folders folders made' in
                written-Isolates call.new_id _ folders _ e' mine
                  (λ old there. absurd (ground (arith, absent, there)))
                  (subst (λ i. belongs tree.folders i (parent_of parent) ≡ true) mine
                    (find_parent_found call u' tree req.parent_id parent e)))))))))

  pub update_folder_handler-Isolates :
      (id_value : Option ℕ) (body : Option FolderRequest)
      → Isolates u tree (update_folder_handler call (some u) id_value body)
  unfolding update_folder_handler
  update_folder_handler-Isolates id_value body = Isolates-or_refuse start _ _ _ (λ u' same.
      let mine : u' ≡ u = ground (arith, same) in
      Isolates-or_refuse start _ _ _ (λ id _. Isolates-or_refuse start _ _ _ (λ req _.
        Isolates-require start _ _ _ (
          Isolates-reads start _ _ (find_folder-same call u' tree get_folder_query id)
            (λ existing found.
              Isolates-reads start _ _ (find_parent-same call u' tree req.parent_id) (λ asked e.
                Isolates-look start _ _ (
                  Isolates-look start _ _ (
                    Isolates-or_refuse start _ _ _ (λ folders made.
                      let made' = made_by (call.fails update_folder_query) made in
                      let (old_mine, e') = update_folder_gives id _ tree.folders folders made' in
                      let (row, its) =
                        find_folder_found call u' tree get_folder_query id existing found in
                      written-Isolates id _ folders _ e' mine old_mine (
                        new_parent u' id existing asked mine row its
                          (find_parent_found call u' tree req.parent_id asked e)))))))))))
