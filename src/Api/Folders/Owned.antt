-- ===== src/Api/Folders/Owned.antt =====
-- Whose folders and files there are, and what a deletion leaves (internal/api/folders.go,
-- sql/schema.sql).
use file_cheap.Prelude.{
  ◌≡◌, ◌≢◌, ◌↔◌, refl, sym, ap, ◌∙◌, subst, ℕ, true, Option, none, some, [], ◌∷◌, arith,
  Option-cases, inl, inr, length,
}
use file_cheap.Prelude.Key.{nat_key}
use file_cheap.Prelude.Map.{Map, lookup}
use file_cheap.Prelude.Map.Retain.{HasUniqueKeys}
use file_cheap.Api.Folders.{
  Folder, FiledFile, Folders, Tree, is_orphan, cascade, unfile, unfile_all, settle_rows,
}
use file_cheap.Api.Folders.Cascade.{
  belongs, Within, Holds, cascade-Within, cascade-HasUniqueKeys, cascade-Closed, cascade-Holds,
}

-- Folders lie in folders of their users, and so do files.
pub record IsOwned (tree : Tree) : Type 0 where
  pub unique : HasUniqueKeys tree.folders
  pub parents :
      (j : ℕ) (f : Folder)
      → lookup j tree.folders ≡ some f
      → belongs tree.folders f.user_id f.parent_id ≡ true
  pub filed :
      (i : ℕ) (x : FiledFile)
      → lookup i tree.files ≡ some x
      → belongs tree.folders x.user_id x.folder_id ≡ true

-- Between two states, the rows of the user are the same.
pub record Leaves (v : ℕ) (tree tree' : Tree) : Type 0 where
  pub folders :
      (j : ℕ) (f : Folder)
      → f.user_id ≡ v
      → (lookup j tree.folders ≡ some f) ↔ (lookup j tree'.folders ≡ some f)
  pub files :
      (i : ℕ) (x : FiledFile)
      → x.user_id ≡ v
      → (lookup i tree.files ≡ some x) ↔ (lookup i tree'.files ≡ some x)

lookup-unfile_all :
    (left : Folders) (i : ℕ) (files : Map ℕ FiledFile)
    → lookup i (unfile_all left files)
      ≡ elim (lookup i files) [ none ↦ none | some x ↦ some (unfile left x) ]
unfolding unfile_all lookup
lookup-unfile_all left i [] = refl
lookup-unfile_all left i ((j, x) ∷ files) = ground (arith, lookup-unfile_all left i files)

orphan_if :
    (folders : Folders) (f : Folder) (p : ℕ)
    → f.parent_id ≡ some p
    → lookup p folders ≡ none
    → is_orphan folders f ≡ true
unfolding is_orphan
orphan_if folders f p e q = ground (arith, e, q)

-- A deletion of rows of folders, with what follows from it.
module _ (tree : Tree) (owned : IsOwned tree) (left : Folders) (u : HasUniqueKeys left)
    (within : Within left tree.folders) where
  abbrev settled : Folders
  settled = cascade (length left) left

  settled-Within : Within settled tree.folders
  settled-Within j f h = within j f (cascade-Within (length left) left u j f h)

  settled-belongs :
      (user_id : ℕ) (o : Option ℕ)
      → belongs tree.folders user_id o ≡ true
      → ((p : ℕ) → o ≡ some p → lookup p settled ≢ none)
      → belongs settled user_id o ≡ true
  settled-belongs user_id none b there = refl
  settled-belongs user_id (some p) b there = elim (Option-cases (lookup p settled)) [
    | inl e ↦ absurd (there p refl e)
    | inr (g, e) ↦ ground (arith, e, b, settled-Within p g e)
  ]

  unfile-belongs :
      (x : FiledFile)
      → belongs tree.folders x.user_id x.folder_id ≡ true
      → belongs settled (unfile settled x).user_id (unfile settled x).folder_id ≡ true
  unfolding unfile
  unfile-belongs x b = elim (Option-cases x.folder_id) [
    | inl e ↦ ground (arith, e)
    | inr (p, e) ↦ elim (Option-cases (lookup p settled)) [
      | inl q ↦ ground (arith, e, q)
      | inr (g, q) ↦ ground (arith, e, q, b, settled-Within p g q)
    ]
  ]

  pub settle_rows-IsOwned : IsOwned (settle_rows left tree.files)
  unfolding settle_rows
  settle_rows-IsOwned = record {
    unique = cascade-HasUniqueKeys (length left) left u;
    parents = λ j f h.
        let closed = cascade-Closed (length left) left u (omega arith) j f h in
        settled-belongs f.user_id f.parent_id (owned.parents j f (settled-Within j f h))
          (λ p e q. ground (arith, closed, e, q, not_closed f p e q));
    filed = λ i x h. elim (Option-cases (lookup i tree.files)) [
      | inl e ↦ absurd (ground (arith, h, e, lookup-unfile_all settled i tree.files))
      | inr (old, e) ↦
          let same : unfile settled old ≡ x =
            ground (arith, h, e, lookup-unfile_all settled i tree.files) in
          let b = unfile-belongs old (owned.filed i old e) in
          subst (λ (y : FiledFile). belongs settled y.user_id y.folder_id ≡ true) same b
    ];
  }
    where
      not_closed :
          (f : Folder) (p : ℕ)
          → f.parent_id ≡ some p
          → lookup p settled ≡ none
          → is_orphan settled f ≡ true
      not_closed f p e q = orphan_if settled f p e q

  unfile-user : (x : FiledFile) → (unfile settled x).user_id ≡ x.user_id
  unfolding unfile
  unfile-user x = ground arith

  unfile-same :
      (v : ℕ)
      → Holds v tree.folders settled
      → (x : FiledFile) → belongs tree.folders x.user_id x.folder_id ≡ true
      → x.user_id ≡ v
      → unfile settled x ≡ x
  unfolding unfile
  unfile-same v held x b mine = elim (Option-cases x.folder_id) [
    | inl e ↦ ground (arith, e)
    | inr (p, e) ↦ elim (Option-cases (lookup p tree.folders)) [
      | inl q ↦ absurd (ground (arith, e, q, b))
      | inr (g, q) ↦
          let its : g.user_id ≡ v =
            ground (arith, e, q, b, mine, nat_key.test_iff g.user_id x.user_id) in
          ground (arith, e, held p g q its)
    ]
  ]

  -- Whoever has lost no folder at first has lost nothing.
  pub settle_rows-Leaves :
      (v : ℕ) → Holds v tree.folders left → Leaves v tree (settle_rows left tree.files)
  unfolding settle_rows
  settle_rows-Leaves v holds = record {
    folders = λ j f mine. (λ h. held j f h mine, λ h. settled-Within j f h);
    files = λ i x mine. (
      λ h. ground (
        arith,
        h,
        lookup-unfile_all settled i tree.files,
        unfile-same v held x (owned.filed i x h) mine,
      ),
      λ h. elim (Option-cases (lookup i tree.files)) [
        | inl e ↦ absurd (ground (arith, h, e, lookup-unfile_all settled i tree.files))
        | inr (old, e) ↦
            let same : unfile settled old ≡ x =
              ground (arith, h, e, lookup-unfile_all settled i tree.files) in
            let its : old.user_id ≡ v =
              sym (unfile-user old) ∙ ap (λ (y : FiledFile). y.user_id) same ∙ mine in
            let kept = unfile-same v held old (owned.filed i old e) its in
            e ∙ ap some (sym kept ∙ same)
      ],
    );
  }
    where
      held : Holds v tree.folders settled
      held = cascade-Holds v tree.folders owned.parents (length left) left u holds
