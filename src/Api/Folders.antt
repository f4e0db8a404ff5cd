-- ===== src/Api/Folders.antt =====
-- Folders: internal/api/folders.go with its queries (sql/queries/folders.sql) and the columns of
-- sql/schema.sql that refer to a folder. The handlers are in Folders/Handlers.antt.
pub mod Handlers
pub mod Cascade
pub mod Owned
pub mod Steps
pub mod Writes
pub mod Moves
pub mod Deletes
pub mod Isolation
pub mod Ends
use file_cheap.Prelude.{
  ℕ, zero, suc, Bool, true, false, ◌&&◌, ◌||◌, Option, none, some, List, [], ◌∷◌, ◌++◌,
  if◌then◌else◌, length, map,
}
use file_cheap.Prelude.Key.{◌==◌, nat_key}
use file_cheap.Prelude.Bytes.{Bytes, bytes_key}
use file_cheap.Prelude.Map.{Map, lookup, insert, delete}
use file_cheap.Prelude.Map.Retain.{sweep}

-- A row of `folders`, without its times.
pub record Folder : Type 0 where
  pub user_id : ℕ
  pub parent_id : Option ℕ
  pub name : Bytes
  pub path : Bytes

-- A row of `files`, the columns that the handlers of folders read or write.
pub record FiledFile : Type 0 where
  pub user_id : ℕ
  pub folder_id : Option ℕ
  pub is_deleted : Bool

abbrev pub Folders : Type 0
Folders = Map ℕ Folder

pub record Tree : Type 0 where
  pub folders : Folders
  pub files : Map ℕ FiledFile

-- `GetFolder`: the row, if it is the user's.
unfoldable pub get_folder : ℕ → ℕ → Folders → Option Folder
get_folder id user_id folders = elim (lookup id folders) [
  | none ↦ none
  | some folder ↦ if folder.user_id == user_id then some folder else none
]

-- UNIQUE(user_id, parent_id, name), in which no parent is equal to no other: whether another row than
-- `id` has the three.
unfoldable pub is_taken : ℕ → Folder → Folders → Bool
is_taken id new [] = false
is_taken id new ((j, old) ∷ rest) =
    (elim new.parent_id [
      | none ↦ false
      | some p ↦ elim old.parent_id [
        | none ↦ false
        | some q ↦
            if j == id then false else old.user_id == new.user_id && p == q && old.name == new.name
      ]
    ])
    || is_taken id new rest

-- `CreateFolder`.
unfoldable pub create_folder : ℕ → Folder → Folders → Option Folders
create_folder id new folders =
    if is_taken id new folders
    then none
    else elim (lookup id folders) [ some taken ↦ none | none ↦ some (insert id new folders) ]

-- `UpdateFolder`, which finds the row by its id and its user.
unfoldable pub update_folder : ℕ → Folder → Folders → Option Folders
update_folder id new folders = elim (get_folder id new.user_id folders) [
  | none ↦ none
  | some old ↦ if is_taken id new folders then none else some (insert id new folders)
]

-- ON DELETE CASCADE: the rows whose parent is gone are deleted, round after round.
unfoldable pub is_orphan : Folders → Folder → Bool
is_orphan folders folder = elim folder.parent_id [
  | none ↦ false
  | some p ↦ elim (lookup p folders) [ none ↦ true | some parent ↦ false ]
]

unfoldable pub cascade : ℕ → Folders → Folders
cascade zero folders = folders
cascade (suc rounds) folders = cascade rounds (sweep (is_orphan folders) folders)

-- ON DELETE SET NULL.
unfoldable pub unfile : Folders → FiledFile → FiledFile
unfile folders file = elim file.folder_id [
  | none ↦ file
  | some p ↦ elim (lookup p folders) [
    | none ↦ record file { folder_id = none }
    | some folder ↦ file
  ]
]

unfoldable pub unfile_all : Folders → Map ℕ FiledFile → Map ℕ FiledFile
unfile_all folders [] = []
unfile_all folders ((i, file) ∷ rest) = (i, unfile folders file) ∷ unfile_all folders rest

-- What follows from the deletion of rows of `folders`.
unfoldable pub settle_rows : Folders → Map ℕ FiledFile → Tree
settle_rows folders files =
    let left = cascade (length folders) folders in
    record { folders = left; files = unfile_all left files }

-- `DeleteFolder`.
unfoldable pub delete_folder : ℕ → ℕ → Tree → Tree
delete_folder id user_id tree = elim (get_folder id user_id tree.folders) [
  | none ↦ tree
  | some folder ↦ settle_rows (delete id tree.folders) tree.files
]

-- The rows whose parent is one of `parents`.
unfoldable pub is_any : ℕ → List ℕ → Bool
is_any id [] = false
is_any id (j ∷ ids) = j == id || is_any id ids

unfoldable pub children : List ℕ → Folders → List ℕ
unfolding is_any
children parents [] = []
children parents ((j, folder) ∷ rest) =
    let more = children parents rest in
    elim folder.parent_id [ none ↦ more | some p ↦ if is_any p parents then j ∷ more else more ]

-- The recursive query of `DeleteFolderRecursive`: the ids of one level and of all below; `none` is
-- a query that has not ended.
unfoldable pub folder_tree : ℕ → List ℕ → Folders → Option (List ℕ)
folder_tree zero level folders = none
folder_tree (suc fuel) level folders =
    let rest = folder_tree fuel (children level folders) folders in
    elim level [
      | [] ↦ some []
      | j ∷ js ↦ elim rest [ none ↦ none | some below ↦ some ((j ∷ js) ++ below) ]
    ]

unfoldable pub delete_all : List ℕ → Folders → Folders
delete_all [] folders = folders
delete_all (id ∷ ids) folders = delete_all ids (delete id folders)

-- `DeleteFolderRecursive`.
unfoldable pub delete_folder_recursive : ℕ → ℕ → ℕ → Tree → Option Tree
delete_folder_recursive fuel id user_id tree = elim (get_folder id user_id tree.folders) [
  | none ↦ some tree
  | some folder ↦ elim (folder_tree fuel (id ∷ []) tree.folders) [
    | none ↦ none
    | some ids ↦ some (settle_rows (delete_all ids tree.folders) tree.files)
  ]
]

-- `MoveFileToFolder` and `MoveFileToRoot`.
unfoldable pub move_file : ℕ → ℕ → Option ℕ → Map ℕ FiledFile → Map ℕ FiledFile
move_file id user_id folder_id files = elim (lookup id files) [
  | none ↦ files
  | some file ↦
      if file.user_id == user_id
      then (if file.is_deleted
          then files
          else insert id (record file { folder_id = folder_id }) files)
      else files
]
