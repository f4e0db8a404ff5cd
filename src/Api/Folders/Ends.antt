-- ===== src/Api/Folders/Ends.antt =====
-- When the recursive query for the folders below a folder ends (sql/queries/folders.sql).
use file_cheap.Prelude.{
  ◌≡◌, refl, ℕ, zero, suc, ◌+◌, ◌≤◌, ◌<◌, Bool, true, none, some, List, [], ◌∷◌, ◌++◌, arith,
  Bool-cases, Option-cases, inl, inr, All,
}
use file_cheap.Prelude.Key.{◌==◌, nat_key, test_refl}
use file_cheap.Prelude.Map.{lookup}
use file_cheap.Prelude.Map.Retain.{HasUniqueKeys}
use file_cheap.Api.Folders.{
  Folder, Folders, Tree, get_folder, is_any, children, folder_tree, settle_rows, delete_all,
  delete_folder_recursive,
}
use file_cheap.Api.Folders.Deletes.{is_any-All, later_row}

-- The folders of a set each have a child in the set.
abbrev pub IsCyclic : (ℕ → Bool) → Folders → Type 0
IsCyclic set folders =
    (x : ℕ)
    → set x ≡ true
    → (y : ℕ) × (f : Folder) × (lookup y folders ≡ some f) × (f.parent_id ≡ some x) × (set y ≡ true)

children-has :
    (level : List ℕ) (x y : ℕ) (f : Folder) (entries : Folders)
    → lookup y entries ≡ some f
    → f.parent_id ≡ some x
    → is_any x level ≡ true
    → is_any y (children level entries) ≡ true
unfolding children is_any lookup
children-has level x y f [] row parent there = cc
children-has level x y f ((j, folder) ∷ rest) row parent there = elim (Bool-cases (j == y)) [
  | inl q ↦
      let its : folder.parent_id ≡ some x = ground (arith, row, q, parent) in
      rw (its, there, q) refl
  | inr q ↦
      let below = children-has level x y f rest (ground (arith, row, q)) parent there in
      elim (Option-cases folder.parent_id) [
        | inl e ↦ rw e below
        | inr (p, e) ↦
            rw e
              (elim (Bool-cases (is_any p level)) [ inl i ↦ rw (i, q) below | inr i ↦ rw i below ])
      ]
]

folder_tree-none :
    (set : ℕ → Bool) (folders : Folders)
    → IsCyclic set folders
    → (fuel x : ℕ) (level : List ℕ) → set x ≡ true
    → is_any x level ≡ true
    → folder_tree fuel level folders ≡ none
unfolding folder_tree is_any
folder_tree-none set folders cyclic zero x level inside there = refl
folder_tree-none set folders cyclic (suc fuel) x [] inside there = cc
folder_tree-none set folders cyclic (suc fuel) x (j ∷ js) inside there =
    let (y, f, row, parent, inside') = cyclic x inside in
    let below = children-has (j ∷ js) x y f folders row parent there in
    rw (folder_tree-none set folders cyclic fuel y (children (j ∷ js) folders) inside' below) refl

-- The recursive deletion of a folder that lies below itself never ends: with a set of folders each
-- of which has a child in the set, such as one that is its own parent, the query for a folder of the
-- user in this set has no end, whatever the fuel.
pub delete_folder_recursive-none :
    (fuel id user_id : ℕ) (tree : Tree) (folder : Folder) (set : ℕ → Bool)
    → get_folder id user_id tree.folders ≡ some folder
    → IsCyclic set tree.folders
    → set id ≡ true
    → delete_folder_recursive fuel id user_id tree ≡ none
unfolding delete_folder_recursive is_any
delete_folder_recursive-none fuel id user_id tree folder set found cyclic inside =
    let endless =
      folder_tree-none set tree.folders cyclic fuel id (id ∷ []) inside
        (ground (arith, test_refl {K = ℕ} id)) in
    ground (arith, found, endless)

-- Each folder in a folder has a greater rank than that one, and none a rank above `n`.
abbrev pub IsRanked : (ℕ → ℕ) → ℕ → Folders → Type 0
IsRanked rank n folders =
    (y x : ℕ) (f : Folder)
    → lookup y folders ≡ some f
    → f.parent_id ≡ some x
    → (rank x < rank y) × (rank y ≤ n)

children-ranks :
    (rank : ℕ → ℕ) (n k : ℕ) (level : List ℕ) (folders entries : Folders)
    → IsRanked rank n folders
    → HasUniqueKeys entries
    → ((y : ℕ) (f : Folder) → lookup y entries ≡ some f → lookup y folders ≡ some f)
    → All (λ x. (k ≤ rank x) × (rank x ≤ n)) level
    → All (λ y. (k + 1 ≤ rank y) × (rank y ≤ n)) (children level entries)
unfolding children lookup
children-ranks rank n k level folders [] ranked unique within all = tt
children-ranks rank n k level folders ((j, folder) ∷ rest) ranked (fresh, unique) within all =
    let row : lookup j folders ≡ some folder = within j folder (rw (test_refl {K = ℕ} j) refl) in
    let below =
      children-ranks rank n k level folders rest ranked unique
        (λ y f h. within y f (later_row j folder rest fresh y f h)) all in
    elim (Option-cases folder.parent_id) [
      | inl e ↦ rw e below
      | inr (p, e) ↦ rw e (elim (Bool-cases (is_any p level)) [
        | inl i ↦
            let (at_p, _) = is_any-All (λ x. (k ≤ rank x) × (rank x ≤ n)) p level all i in
            let (over, under) = ranked j p folder row e in rw i ((omega arith, under), below)
        | inr i ↦ rw i below
      ])
    ]

folder_tree_ends :
    (rank : ℕ → ℕ) (n : ℕ) (folders : Folders)
    → IsRanked rank n folders
    → HasUniqueKeys folders
    → (fuel k : ℕ) (level : List ℕ) → n + 2 ≤ fuel + k
    → k ≤ n + 1
    → All (λ y. (k ≤ rank y) × (rank y ≤ n)) level
    → (ids : List ℕ) × (folder_tree fuel level folders ≡ some ids)
unfolding folder_tree
folder_tree_ends rank n folders ranked unique zero k level enough small all = absurd (omega arith)
folder_tree_ends rank n folders ranked unique (suc fuel) k [] enough small all = ([], refl)
folder_tree_ends rank n folders ranked unique (suc fuel) k (j ∷ js) enough small
      ((over, under), all) =
    let next =
      children-ranks rank n k (j ∷ js) folders folders ranked unique (λ y f h. h)
        ((over, under), all) in
    let (below, e) =
      folder_tree_ends rank n folders ranked unique fuel (k + 1) (children (j ∷ js) folders)
        (omega arith) (omega arith) next in
    ((j ∷ js) ++ below, rw e refl)

-- Where no folder lies below itself, so that the depth of a folder can be its rank, the recursive
-- query ends with fuel for two levels more than the greatest depth.
pub delete_folder_recursive_ends :
    (rank : ℕ → ℕ) (n fuel id user_id : ℕ) (tree : Tree)
    → IsRanked rank n tree.folders
    → rank id ≤ n
    → HasUniqueKeys tree.folders
    → n + 2 ≤ fuel
    → (tree' : Tree) × (delete_folder_recursive fuel id user_id tree ≡ some tree')
unfolding delete_folder_recursive
delete_folder_recursive_ends rank n fuel id user_id tree ranked top unique enough =
    let (ids, e) =
      folder_tree_ends rank n tree.folders ranked unique fuel 0 (id ∷ []) (omega arith)
        (omega arith) ((omega arith, top), tt) in
    elim (Option-cases (get_folder id user_id tree.folders)) [
      | inl q ↦ (tree, ground (arith, q))
      | inr (folder, q) ↦
          (settle_rows (delete_all ids tree.folders) tree.files, ground (arith, q, e))
    ]
