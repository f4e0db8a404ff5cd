-- ===== src/Api/Folders/Handlers.antt =====
-- The handlers of internal/api/folders.go that write. A name that is too long for its column is a query
-- that fails.
use file_cheap.Prelude.{
  ℕ, Bool, false, ◌||◌, not, Option, none, some, [], ◌∷◌, ◌++◌, if◌then◌else◌, nat_beq,
}
use file_cheap.Prelude.Key.{◌==◌, nat_key}
use file_cheap.Prelude.Bytes.{Bytes, bytes_key}
use file_cheap.Prelude.Action.{Step, ◌>>=◌, ◌>>◌, answer, refuse, or_refuse, require, modify, look}
use file_cheap.Api.Folders.{
  Folder, Tree, get_folder, create_folder, update_folder, delete_folder, delete_folder_recursive,
  move_file,
}

pub data FolderError : Type 0 where
  unauthorized invalid_id invalid_request missing_name invalid_name invalid_parent_id : FolderError
  invalid_folder_id not_found internal : FolderError

-- An id in a body: missing or empty, not to be parsed, or a UUID.
pub data IdText : Type 0 where
  blank invalid : IdText
  uuid : ℕ → IdText

pub data FolderQuery : Type 0 where
  get_folder_query get_parent_query create_folder_query update_folder_query delete_folder_query
        move_file_query :
      FolderQuery

-- What a call meets: the queries that fail, the id of a new row, and the fuel of a recursive query.
pub record FolderCall : Type 0 where
  pub fails : FolderQuery → Bool
  pub new_id : ℕ
  pub fuel : ℕ

-- `CreateFolderRequest`.
pub record FolderRequest : Type 0 where
  pub name : Bytes
  pub parent_id : IdText

-- `strings.ContainsAny(name, "/\\")`.
unfoldable pub has_slash : Bytes → Bool
has_slash [] = false
has_slash (c ∷ s) = nat_beq c 47 || nat_beq c 92 || has_slash s

abbrev pub FolderStep : Type 0 → Type 0
FolderStep A = Step Tree FolderError A

-- `GetFolder`, whose errors are all answered alike.
unfoldable pub find_folder : FolderCall → FolderQuery → ℕ → ℕ → FolderStep Folder
find_folder call query id user_id = do
  found ← look (λ tree. if call.fails query then none else get_folder id user_id tree.folders)
  or_refuse found not_found

-- The parent of a request, with its path; `none` is no parent in the request.
unfoldable pub find_parent : FolderCall → ℕ → IdText → FolderStep (Option (ℕ × Bytes))
find_parent call user_id blank = answer none
find_parent call user_id invalid = refuse invalid_parent_id
find_parent call user_id (uuid id) = do
  parent ← find_folder call get_parent_query id user_id
  answer (some (id, parent.path))

-- The path of a name in a parent, and at the root.
abbrev pub path_in : Option (ℕ × Bytes) → Bytes → Bytes
path_in none name = b'/' ∷ name
path_in (some (id, path)) name = path ++ b'/' ∷ name

abbrev pub parent_of : Option (ℕ × Bytes) → Option ℕ
parent_of none = none
parent_of (some (id, path)) = some id

-- `CreateFolderHandler`.
unfoldable pub create_folder_handler :
    FolderCall → Option ℕ → Option FolderRequest → FolderStep (ℕ × Folder)
create_folder_handler call user body = do
  user_id ← or_refuse user unauthorized
  req ← or_refuse body invalid_request
  require (not (req.name == [])) missing_name
  require (not (has_slash req.name)) invalid_name
  parent ← find_parent call user_id req.parent_id
  let folder : Folder = record {
    user_id = user_id;
    parent_id = parent_of parent;
    name = req.name;
    path = path_in parent req.name;
  }
  created ← look (λ tree.
      if call.fails create_folder_query
      then none
      else create_folder call.new_id folder tree.folders)
  folders ← or_refuse created internal
  modify (λ tree. record tree { folders = folders })
  answer (call.new_id, folder)

-- The parent that a folder has already, whose path is unknown if it is not found.
unfoldable pub present_parent : FolderCall → ℕ → Folder → Tree → Option (ℕ × Bytes)
present_parent call user_id existing tree = elim existing.parent_id [
  | none ↦ none
  | some p ↦
      elim (if call.fails get_parent_query then none else get_folder p user_id tree.folders) [
        | none ↦ none
        | some parent ↦ some (p, parent.path)
      ]
]

-- `UpdateFolderHandler`.
unfoldable pub update_folder_handler :
    FolderCall → Option ℕ → Option ℕ → Option FolderRequest → FolderStep Folder
update_folder_handler call user id_value body = do
  user_id ← or_refuse user unauthorized
  id ← or_refuse id_value invalid_id
  req ← or_refuse body invalid_request
  require (not (req.name == [])) missing_name
  existing ← find_folder call get_folder_query id user_id
  asked ← find_parent call user_id req.parent_id
  present ← look (present_parent call user_id existing)
  let folder : Folder = record {
    user_id = user_id;
    parent_id = elim asked [ none ↦ existing.parent_id | some parent ↦ some parent.0 ];
    name = req.name;
    path = elim asked [
      | none ↦ path_in present req.name
      | some parent ↦ path_in (some parent) req.name
    ];
  }
  updated ← look (λ tree.
      if call.fails update_folder_query then none else update_folder id folder tree.folders)
  folders ← or_refuse updated internal
  modify (λ tree. record tree { folders = folders })
  answer folder

-- `DeleteFolderHandler`: a recursive query that does not end within the fuel is an error.
unfoldable pub delete_folder_handler :
    FolderCall → Option ℕ → Option ℕ → Bool → FolderStep (Unit {0})
delete_folder_handler call user id_value recursive = do
  user_id ← or_refuse user unauthorized
  id ← or_refuse id_value invalid_id
  require (not (call.fails delete_folder_query)) internal
  deleted ← look (λ tree.
      if recursive
      then delete_folder_recursive call.fuel id user_id tree
      else some (delete_folder id user_id tree))
  tree ← or_refuse deleted internal
  modify (λ _. tree)

-- The folder that a file is to be moved to; `none` is the root.
unfoldable pub find_target : FolderCall → ℕ → IdText → FolderStep (Option ℕ)
find_target call user_id blank = answer none
find_target call user_id invalid = refuse invalid_folder_id
find_target call user_id (uuid id) =
    find_folder call get_folder_query id user_id >> answer (some id)

-- `MoveFileToFolderHandler`.
unfoldable pub move_file_handler :
    FolderCall → Option ℕ → Option ℕ → Option IdText → FolderStep (Unit {0})
move_file_handler call user id_value body = do
  user_id ← or_refuse user unauthorized
  id ← or_refuse id_value invalid_id
  folder_id ← or_refuse body invalid_request
  target ← find_target call user_id folder_id
  require (not (call.fails move_file_query)) internal
  modify (λ tree. record tree { files = move_file id user_id target tree.files })
