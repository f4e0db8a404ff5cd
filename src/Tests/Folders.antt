-- ===== src/Tests/Folders.antt =====
-- Requests for folders.
use file_cheap.Prelude.{ℕ, ◌≡◌, refl, false, Option, none, some, [], ◌∷◌, arith}
use file_cheap.Prelude.Bytes.{Bytes, bytes, bytes_key}
use file_cheap.Prelude.Key.{◌==◌, nat_key}
use file_cheap.Prelude.Map.{lookup, insert, delete}
use file_cheap.Prelude.Map.Retain.{sweep}
use file_cheap.Prelude.Action.{ok, refused, ◌>>=◌, answer, or_refuse, require, modify, look}
use file_cheap.Api.Folders.{
  Folder, FiledFile, Tree, get_folder, is_taken, update_folder, is_orphan, cascade, unfile,
  unfile_all, settle_rows, delete_folder, delete_folder_recursive,
}
use file_cheap.Api.Folders.Handlers.{
  blank, uuid, invalid_name, FolderCall, has_slash, find_folder, find_parent, present_parent,
  create_folder_handler, update_folder_handler, delete_folder_handler,
}
use file_cheap.Api.Folders.Owned.{IsOwned, Leaves}
use file_cheap.Api.Folders.Ends.{IsCyclic, delete_folder_recursive-none}
use file_cheap.Api.Folders.Isolation.{FolderEvent, serve_folders, serve_folders-IsOwned}

abbrev a_folder : Option ℕ → Bytes → Bytes → Folder
a_folder parent name path = record { user_id = 1; parent_id = parent; name = name; path = path }

abbrev outer : Folder
outer = a_folder none (bytes "a") (bytes "/a")

abbrev inner : Folder
inner = a_folder (some 10) (bytes "b") (bytes "/a/b")

abbrev a_file : FiledFile
a_file = record { user_id = 1; folder_id = some 11; is_deleted = false }

abbrev a_tree : Tree
a_tree = record { folders = (10, outer) ∷ (11, inner) ∷ []; files = (5, a_file) ∷ [] }

abbrev a_call : FolderCall
a_call = record { fails = λ q. false; new_id = 12; fuel = 5 }

a_tree-IsOwned : IsOwned a_tree
unfolding lookup
a_tree-IsOwned = record {
  unique = (refl, (refl, tt));
  parents = λ j f h. ground (arith, h);
  filed = λ i x h. ground (arith, h);
}

-- The folder inside goes with the outer one, and the file becomes a file of the root.
deleted_below :
    serve_folders a_call 1 (FolderEvent.delete (some 10) false) a_tree
    ≡ record { folders = []; files = (5, record a_file { folder_id = none }) ∷ [] }
unfolding serve_folders delete_folder_handler delete_folder get_folder settle_rows cascade sweep
    is_orphan unfile unfile_all lookup delete ◌>>=◌ or_refuse require look modify
deleted_below = refl

serve_folders-IsOwned_example :
    IsOwned (serve_folders a_call 1 (FolderEvent.delete (some 10) false) a_tree)
    × Leaves 2 a_tree (serve_folders a_call 1 (FolderEvent.delete (some 10) false) a_tree)
serve_folders-IsOwned_example =
    serve_folders-IsOwned a_call 1 2 (FolderEvent.delete (some 10) false) a_tree (omega arith)
      a_tree-IsOwned

abbrev looped : Folder
looped = a_folder (some 10) (bytes "a") (bytes "/a/a")

abbrev a_loop : Tree
a_loop = record a_tree { folders = (10, looped) ∷ (11, inner) ∷ [] }

-- A folder can be moved into itself; the path of the folder inside stays as it was.
moved_into_itself :
    serve_folders a_call 1
      (FolderEvent.update (some 10) (some (record { name = bytes "a"; parent_id = uuid 10 })))
      a_tree
    ≡ a_loop
unfolding serve_folders update_folder_handler find_folder find_parent present_parent update_folder
    get_folder is_taken lookup insert ◌>>=◌ answer or_refuse require look modify
moved_into_itself = refl

-- A slash is refused in a new folder's name, and not in a changed one.
slash_refused :
    (create_folder_handler a_call
      (some 1)
      (some (record { name = bytes "a/b"; parent_id = blank }))
      a_tree).0
    ≡ refused invalid_name
unfolding create_folder_handler has_slash ◌>>=◌ or_refuse require
slash_refused = refl

slash_accepted :
    (update_folder_handler a_call
      (some 1)
      (some 10)
      (some (record { name = bytes "a/b"; parent_id = blank }))
      a_tree).0
    ≡ ok (a_folder none (bytes "a/b") (bytes "/a/b"))
unfolding update_folder_handler find_folder find_parent present_parent update_folder get_folder
    is_taken lookup insert ◌>>=◌ answer or_refuse require look modify
slash_accepted = refl

loop-IsCyclic : IsCyclic (λ x. x == 10) a_loop.folders
unfolding lookup
loop-IsCyclic x h = (10, looped, refl, ground (arith, h), refl)

delete_folder_recursive-none_example : delete_folder_recursive 1000 10 1 a_loop ≡ none
unfolding get_folder lookup
delete_folder_recursive-none_example =
    delete_folder_recursive-none 1000 10 1 a_loop looped (λ x. x == 10) refl loop-IsCyclic refl
