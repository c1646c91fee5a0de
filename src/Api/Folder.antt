-- ===== src/Api/Folder.antt =====
-- server/upm-server/src/api.rs: the files of the attachment directory, each known by its name. Whether an
-- operation of the file system succeeds is an argument (`Disk`), and so is what a failed write leaves in its
-- file.
use upmessenger.Base.{
  Bool, Option, none, some, [], ◌∷◌, ◌++◌, Bytes, Text, codes, str_eq, if◌then◌else◌,
}
use upmessenger.Api.{AppState, Directory}

-- What the file system does in one request.
pub record Disk : Type 0 where
  pub directory_made : Bool
  pub written : Bool
  pub left_by_failure : Bytes
  pub renamed : Bool
  pub removed : Bool
  pub readable : Bool

-- std::fs::read, on a directory that can be read
unfoldable pub read_file : Text → Directory → Option Bytes
read_file name [] = none
read_file name ((n, bytes) ∷ files) =
    let rest = read_file name files in if str_eq n name then some bytes else rest

-- std::fs::remove_file
unfoldable pub remove_file : Text → Directory → Directory
remove_file name [] = []
remove_file name ((n, bytes) ∷ files) =
    let rest = remove_file name files in if str_eq n name then rest else (n, bytes) ∷ rest

-- std::fs::write
unfoldable pub write_file : Text → Bytes → Directory → Directory
write_file name bytes files = (name, bytes) ∷ remove_file name files

-- std::fs::rename, which replaces a file of the new name
unfoldable pub rename_file : Text → Text → Directory → Directory
rename_file old new files = elim (read_file old files) [
  | none ↦ files
  | some bytes ↦ write_file new bytes (remove_file old files)
]

unfoldable pub attachment_path : Text → Text
attachment_path storage_key = storage_key ++ codes ".blob"

-- `final_path.with_extension("blob.part")`
unfoldable pub part_path : Text → Text
part_path storage_key = storage_key ++ codes ".blob.part"

unfoldable pub on_files : (Directory → Directory) → AppState → AppState
on_files f s = record s { attachment_dir = f s.attachment_dir }

-- `let _ = std::fs::remove_file(..)`
unfoldable pub try_remove : Disk → Text → AppState → AppState
try_remove disk name s = if disk.removed then on_files (remove_file name) s else s
