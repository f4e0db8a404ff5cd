-- ===== src/Api/Folders/Deletes.antt =====
-- The deletion of folders keeps to the user's rows (internal/api/folders.go).
use mathlib.Core.Option.{some-injective}
use file_cheap.Prelude.{
  ◌≡◌, ◌≢◌, refl, sym, ap, ◌∙◌, subst, ℕ, zero, suc, Bool, true, false, Option, none, some, List,
  [], ◌∷◌, ◌++◌, if◌then◌else◌, arith, Bool-cases, Option-cases, inl, inr, All,
}
use file_cheap.Prelude.Key.{◌==◌, nat_key, test_refl}
use file_cheap.Prelude.Bytes.{bytes_key}
use file_cheap.Prelude.Map.{lookup, delete, lookup-delete}
use file_cheap.Prelude.Map.Retain.{HasUniqueKeys, delete-HasUniqueKeys}
use file_cheap.Prelude.Action.{modify}
use file_cheap.Api.Folders.{
  Folder, Folders, Tree, get_folder, settle_rows, delete_folder, is_any, children, folder_tree,
  delete_all, delete_folder_recursive,
}
use file_cheap.Api.Folders.Owned.{IsOwned, Leaves, settle_rows-IsOwned, settle_rows-Leaves}
use file_cheap.Api.Folders.Cascade.{Within, Holds}
use file_cheap.Api.Folders.Handlers.{FolderCall, delete_folder_handler}
use file_cheap.Api.Folders.Steps.{
  Isolates, Isolates-none, Isolates-or_refuse, Isolates-require, Isolates-look, Isolates-modify,
}
use file_cheap.Api.Folders.Writes.{get_folder_found}

-- If there is a folder of this id, it is the user's.
abbrev Owns : Folders → ℕ → ℕ → Type 0
Owns folders u j = (f : Folder) → lookup j folders ≡ some f → f.user_id ≡ u

All-append : (P : ℕ → Type 0) (xs ys : List ℕ) → All P xs → All P ys → All P (xs ++ ys)
All-append P [] ys p q = q
All-append P (x ∷ xs) ys (p, ps) q = (p, All-append P xs ys ps q)

pub is_any-All : (P : ℕ → Type 0) (p : ℕ) (ids : List ℕ) → All P ids → is_any p ids ≡ true → P p
unfolding is_any
is_any-All P p [] all h = cc
is_any-All P p (j ∷ ids) (here, all) h = elim (Bool-cases (j == p)) [
  | inl q ↦ subst P ((nat_key.test_iff j p).0 q) here
  | inr q ↦ is_any-All P p ids all (ground (arith, h, q))
]

pub later_row :
    (j : ℕ) (folder : Folder) (rest : Folders)
    → lookup j rest ≡ none
    → (k : ℕ) (f : Folder) → lookup k rest ≡ some f
    → lookup k ((j, folder) ∷ rest) ≡ some f
unfolding lookup
later_row j folder rest fresh k f h = elim (Bool-cases (j == k)) [
  | inl q ↦ absurd (ground (arith, h, fresh, ap (λ i. lookup i rest) ((nat_key.test_iff j k).0 q)))
  | inr q ↦ rw q h
]

module _ (tree : Tree) (start : IsOwned tree) (u : ℕ) where
  -- A folder in a folder of the user is the user's.
  child-Owns :
      (j p : ℕ) (folder : Folder)
      → lookup j tree.folders ≡ some folder
      → folder.parent_id ≡ some p
      → Owns tree.folders u p
      → Owns tree.folders u j
  child-Owns j p folder row e owns f h =
      let b = start.parents j folder row in
      elim (Option-cases (lookup p tree.folders)) [
        | inl q ↦ absurd (ground (arith, b, e, q))
        | inr (g, q) ↦
            ground (arith, b, e, q, owns g q, row, h, nat_key.test_iff g.user_id folder.user_id)
      ]

  children-Owns :
      (level : List ℕ) (entries : Folders)
      → HasUniqueKeys entries
      → Within entries tree.folders
      → All (Owns tree.folders u) level
      → All (Owns tree.folders u) (children level entries)
  unfolding children lookup
  children-Owns level [] unique within all = tt
  children-Owns level ((j, folder) ∷ rest) (fresh, unique) within all =
      let row : lookup j tree.folders ≡ some folder =
        within j folder (rw (test_refl {K = ℕ} j) refl) in
      let within' : Within rest tree.folders =
        λ k f h. within k f (later_row j folder rest fresh k f h) in
      let below = children-Owns level rest unique within' all in
      elim (Option-cases folder.parent_id) [
        | inl e ↦ rw e below
        | inr (p, e) ↦ rw e (elim (Bool-cases (is_any p level)) [
          | inl q ↦
              rw q (
                child-Owns j p folder row e (is_any-All (Owns tree.folders u) p level all q),
                below,
              )
          | inr q ↦ rw q below
        ])
      ]

  folder_tree-Owns :
      (fuel : ℕ) (level ids : List ℕ)
      → All (Owns tree.folders u) level
      → folder_tree fuel level tree.folders ≡ some ids
      → All (Owns tree.folders u) ids
  unfolding folder_tree
  folder_tree-Owns zero level ids all h = cc
  folder_tree-Owns (suc fuel) [] ids all h =
      subst (All (Owns tree.folders u)) (some-injective _ _ h) tt
  folder_tree-Owns (suc fuel) (j ∷ js) ids all h =
      let next = children (j ∷ js) tree.folders in
      let after : Option (List ℕ) → Option (List ℕ) =
        λ o. elim o [ none ↦ none | some below ↦ some ((j ∷ js) ++ below) ] in
      elim (Option-cases (folder_tree fuel next tree.folders)) [
        | inl e ↦ absurd (ground (arith, sym (ap after e) ∙ h))
        | inr (below, e) ↦
            let owned =
              folder_tree-Owns fuel next below
                (children-Owns (j ∷ js) tree.folders start.unique (λ k f q. q) all) e in
            subst (All (Owns tree.folders u)) (some-injective _ _ (sym (ap after e) ∙ h))
              (All-append (Owns tree.folders u) (j ∷ js) below all owned)
      ]

delete_all-Within : (ids : List ℕ) (folders : Folders) → Within (delete_all ids folders) folders
unfolding delete_all
delete_all-Within [] folders j f h = h
delete_all-Within (id ∷ ids) folders j f h =
    let there = delete_all-Within ids (delete id folders) j f h in
    ground (arith, there, lookup-delete id j folders)

delete_all-HasUniqueKeys :
    (ids : List ℕ) (folders : Folders)
    → HasUniqueKeys folders
    → HasUniqueKeys (delete_all ids folders)
unfolding delete_all
delete_all-HasUniqueKeys [] folders u = u
delete_all-HasUniqueKeys (id ∷ ids) folders u =
    delete_all-HasUniqueKeys ids (delete id folders) (delete-HasUniqueKeys id folders u)

delete_all-Holds :
    (u v : ℕ) (folders left : Folders) (ids : List ℕ)
    → v ≢ u
    → All (Owns folders u) ids
    → Holds v folders left
    → Holds v folders (delete_all ids left)
unfolding delete_all
delete_all-Holds u v folders left [] other all holds = holds
delete_all-Holds u v folders left (id ∷ ids) other (owns, all) holds =
    delete_all-Holds u v folders (delete id left) ids other all (λ j f h mine.
      elim (Bool-cases (id == j)) [
        | inl q ↦
            let row = ap (λ i. lookup i folders) ((nat_key.test_iff id j).0 q) ∙ h in
            absurd (other (sym mine ∙ owns f row))
        | inr q ↦ lookup-delete id j left ∙ rw q (holds j f h mine)
      ])

module _ (call : FolderCall) (u : ℕ) (tree : Tree) (start : IsOwned tree) where
  -- The deletion of rows that are the user's.
  deleted-Isolates :
      (ids : List ℕ) (tree' : Tree)
      → All (Owns tree.folders u) ids
      → settle_rows (delete_all ids tree.folders) tree.files ≡ tree'
      → Isolates u tree (modify (λ _. tree'))
  deleted-Isolates ids tree' all e =
      let left = delete_all ids tree.folders in
      let unique = delete_all-HasUniqueKeys ids tree.folders start.unique in
      let within = delete_all-Within ids tree.folders in
      Isolates-modify start (λ _. tree')
        (subst IsOwned e (settle_rows-IsOwned tree start left unique within))
        (λ v other. subst (Leaves v tree) e (
          settle_rows-Leaves tree start left unique within v
            (delete_all-Holds u v tree.folders tree.folders ids other all (λ j f h mine. h))))

  mine :
      (id : ℕ) (folder : Folder)
      → get_folder id u tree.folders ≡ some folder
      → Owns tree.folders u id
  mine id folder q f e =
      let (row, its) = get_folder_found id u tree.folders folder q in ground (arith, row, its, e)

  delete_folder-Isolates :
      (id : ℕ) (tree' : Tree)
      → delete_folder id u tree ≡ tree'
      → Isolates u tree (modify (λ _. tree'))
  unfolding delete_folder modify delete_all
  delete_folder-Isolates id tree' e = elim (Option-cases (get_folder id u tree.folders)) [
    | inl q ↦ Isolates-none start (modify (λ _. tree')) (ground (arith, e, q))
    | inr (folder, q) ↦
        deleted-Isolates (id ∷ []) tree' (mine id folder q, tt) (ground (arith, e, q))
  ]

  delete_folder_recursive-Isolates :
      (fuel id : ℕ) (tree' : Tree)
      → delete_folder_recursive fuel id u tree ≡ some tree'
      → Isolates u tree (modify (λ _. tree'))
  unfolding delete_folder_recursive modify
  delete_folder_recursive-Isolates fuel id tree' e =
      elim (Option-cases (get_folder id u tree.folders)) [
        | inl q ↦ Isolates-none start (modify (λ _. tree')) (ground (arith, e, q))
        | inr (folder, q) ↦ elim (Option-cases (folder_tree fuel (id ∷ []) tree.folders)) [
          | inl none_yet ↦ absurd (ground (arith, e, q, none_yet))
          | inr (ids, all) ↦
              let owned =
                folder_tree-Owns tree start u fuel (id ∷ []) ids (mine id folder q, tt) all in
              deleted-Isolates ids tree' owned (ground (arith, e, q, all))
        ]
      ]

  either-Isolates :
      (recursive : Bool) (id : ℕ) (tree' : Tree)
      → (if recursive
          then delete_folder_recursive call.fuel id u tree
          else some (delete_folder id u tree))
        ≡ some tree'
      → Isolates u tree (modify (λ _. tree'))
  either-Isolates true id tree' e = delete_folder_recursive-Isolates call.fuel id tree' e
  either-Isolates false id tree' e = delete_folder-Isolates id tree' (some-injective _ _ e)

  pub delete_folder_handler-Isolates :
      (id_value : Option ℕ) (recursive : Bool)
      → Isolates u tree (delete_folder_handler call (some u) id_value recursive)
  unfolding delete_folder_handler
  delete_folder_handler-Isolates id_value recursive = Isolates-or_refuse start _ _ _ (λ u' same.
      Isolates-or_refuse start _ _ _ (λ id _. Isolates-require start _ _ _ (
        Isolates-look start _ _ (
          Isolates-or_refuse start _ _ _ (λ tree' e. either-Isolates recursive id tree' (
            subst
              (λ i.
                (if recursive
                  then delete_folder_recursive call.fuel id i tree
                  else some (delete_folder id i tree))
                ≡ some tree')
              (some-injective u' u (sym same)) e))))))
