-- ===== src/Api/Folders/Isolation.antt =====
-- What the handlers of folders do to the rows of others, and a folder in itself
-- (internal/api/folders.go, sql/queries/folders.sql).
use file_cheap.Prelude.{◌≢◌, ℕ, Bool, Option, some}
use file_cheap.Prelude.Key.{nat_key}
use file_cheap.Api.Folders.{Tree}
use file_cheap.Api.Folders.Handlers.{
  IdText, FolderCall, FolderRequest, create_folder_handler, update_folder_handler,
  delete_folder_handler, move_file_handler,
}
use file_cheap.Api.Folders.Owned.{IsOwned, Leaves}
use file_cheap.Api.Folders.Writes.{create_folder_handler-Isolates, update_folder_handler-Isolates}
use file_cheap.Api.Folders.Moves.{move_file_handler-Isolates}
use file_cheap.Api.Folders.Deletes.{delete_folder_handler-Isolates}

-- A request that writes, with the ids of its path and its body, if they can be parsed.
pub data FolderEvent : Type 0 where
  create : Option FolderRequest → FolderEvent
  update : Option ℕ → Option FolderRequest → FolderEvent
  delete : Option ℕ → Bool → FolderEvent
  move : Option ℕ → Option IdText → FolderEvent

-- The state after a request of a user.
unfoldable pub serve_folders : FolderCall → ℕ → FolderEvent → Tree → Tree
serve_folders call user_id (create body) tree =
    (create_folder_handler call (some user_id) body tree).1
serve_folders call user_id (update id body) tree =
    (update_folder_handler call (some user_id) id body tree).1
serve_folders call user_id (delete id recursive) tree =
    (delete_folder_handler call (some user_id) id recursive tree).1
serve_folders call user_id (move id body) tree =
    (move_file_handler call (some user_id) id body tree).1

-- Every request of a user that writes keeps all folders and files in folders of their own users, whatever queries
-- fail, and leaves the folders and files of any other user as they are, also where the deletion of
-- a folder deletes those below it.
pub serve_folders-IsOwned :
    (call : FolderCall) (user_id v : ℕ) (event : FolderEvent) (tree : Tree)
    → v ≢ user_id
    → IsOwned tree
    → IsOwned (serve_folders call user_id event tree)
      × Leaves v tree (serve_folders call user_id event tree)
unfolding serve_folders
serve_folders-IsOwned call user_id v (create body) tree other start =
    let i = create_folder_handler-Isolates call user_id tree start body in
    (i.owned, i.others v other)
serve_folders-IsOwned call user_id v (update id body) tree other start =
    let i = update_folder_handler-Isolates call user_id tree start id body in
    (i.owned, i.others v other)
serve_folders-IsOwned call user_id v (delete id recursive) tree other start =
    let i = delete_folder_handler-Isolates call user_id tree start id recursive in
    (i.owned, i.others v other)
serve_folders-IsOwned call user_id v (move id body) tree other start =
    let i = move_file_handler-Isolates call user_id tree start id body in
    (i.owned, i.others v other)
