-- ===== src/Save/Folder.antt =====
-- frontend/src/lib/web-save-location.ts: writing received files below the chosen folder. The
-- browser's file system is a parameter; a folder is named by its path from the chosen one.
use alt_sendme.Prelude.{
  ℕ, Bool, true, Text, Option, none, some, List, [], ◌∷◌, ◌++◌, is_some, if◌then◌else◌, split,
  non_empty, to_slashes, ◌≡◌, ◌≢◌,
}
use alt_sendme.Save.Names.{WriteConflict, Resolved, resolve_writable_file_name}

-- `FileSystemDirectoryHandle` and the handles of files, on a disk `D`.
pub record FileSystem (D : Type 0) : Type 0 where
  -- the content of the file of a name in a folder
  pub read : List Text → Text → D → Option (List ℕ)
  -- `getDirectoryHandle(part, { create: true })`, and whether it succeeds
  pub open_folder : List Text → Text → D → D × Bool
  -- `getFileHandle(name, { create: true })`, `createWritable`, `write` and `close`, and whether they
  -- succeed
  pub write : List Text → Text → List ℕ → D → D × Bool

-- What the standard says of it: only the file that is written changes, it then has the content, and
-- opening a folder changes no file.
pub record Documented {D : Type 0} (fs : FileSystem D) : Type 0 where
  pub write_others :
      (folder : List Text) (name : Text) (bytes : List ℕ) (disk : D) (at : List Text) (other : Text)
      → ◌≢◌ {A = List Text × Text} (folder, name) (at, other)
      → fs.read at other (fs.write folder name bytes disk).0 ≡ fs.read at other disk
  pub write_reads :
      (folder : List Text) (name : Text) (bytes : List ℕ) (disk : D)
      → (fs.write folder name bytes disk).1 ≡ true
      → fs.read folder name (fs.write folder name bytes disk).0 ≡ some bytes
  pub open_keeps :
      (folder : List Text) (part : Text) (disk : D) (at : List Text) (other : Text)
      → fs.read at other (fs.open_folder folder part disk).0 ≡ fs.read at other disk

-- `ReceivedWebFile`
pub record ReceivedWebFile : Type 0 where
  pub name : Text
  pub bytes : List ℕ

-- The disk after a call, and its result; `none` is a thrown error.
pub record Outcome (D : Type 0) (A : Type 0) : Type 0 where
  pub disk : D
  pub result : Option A

abbrev pub with_conflict : Option WriteConflict → List WriteConflict → List WriteConflict
with_conflict none conflicts = conflicts
with_conflict (some c) conflicts = conflicts ++ c ∷ []

module _ {D : Type 0} (fs : FileSystem D) where
  unfoldable pub file_exists : List Text → D → Text → Bool
  file_exists folder disk name = is_some (fs.read folder name disk)

  abbrev pub written : D × Bool → Option WriteConflict → Outcome D (Option WriteConflict)
  written (disk, ok) conflict = record { disk = disk; result = if ok then some conflict else none }

  abbrev pub write_resolved :
      List Text → List ℕ → D → Option Resolved → Outcome D (Option WriteConflict)
  write_resolved folder bytes disk none = record { disk = disk; result = none }
  write_resolved folder bytes disk (some r) =
      written (fs.write folder r.file_name bytes disk) r.conflict

  unfoldable pub write_bytes_to_directory :
      List Text → Text → List ℕ → D → Outcome D (Option WriteConflict)
  unfolding resolve_writable_file_name file_exists
  write_bytes_to_directory folder name bytes disk =
      write_resolved folder bytes disk (resolve_writable_file_name (file_exists folder disk) name)

  -- The folders of a path's parts are opened one in another; the last part is the file's name.
  unfoldable pub open_folders : List Text → Text → List Text → D → Outcome D (List Text × Text)
  open_folders folder name [] disk = record { disk = disk; result = some (folder, name) }
  open_folders folder part (next ∷ parts) disk =
      let (opened, ok) = fs.open_folder folder part disk in
      let rest = open_folders (folder ++ part ∷ []) next parts opened in
      if ok then rest else record { disk = opened; result = none }

  abbrev pub folder_of_parts : List Text → D → Outcome D (List Text × Text)
  folder_of_parts [] disk = record { disk = disk; result = none }
  folder_of_parts (part ∷ parts) disk = open_folders [] part parts disk

  unfoldable pub get_directory_for_relative_path : Text → D → Outcome D (List Text × Text)
  unfolding open_folders split non_empty to_slashes
  get_directory_for_relative_path path disk =
      folder_of_parts (non_empty (split b'/' (to_slashes path))) disk

  abbrev pub write_at : Outcome D (List Text × Text) → List ℕ → Outcome D (Option WriteConflict)
  write_at o bytes = elim o.result [
    | none ↦ record { disk = o.disk; result = none }
    | some (folder, name) ↦ write_bytes_to_directory folder name bytes o.disk
  ]

  -- One round of the loop of `writeCollectionToDirectory`.
  unfoldable pub write_file : ReceivedWebFile → D → Outcome D (Option WriteConflict)
  unfolding to_slashes get_directory_for_relative_path write_bytes_to_directory
  write_file file disk =
      write_at (get_directory_for_relative_path (to_slashes file.name) disk) file.bytes

  unfoldable pub write_files :
      List WriteConflict → List ReceivedWebFile → D → Outcome D (List WriteConflict)
  unfolding write_file
  write_files conflicts [] disk = record { disk = disk; result = some conflicts }
  write_files conflicts (file ∷ files) disk =
      let o = write_file file disk in
      elim o.result [
        | none ↦ record { disk = o.disk; result = none }
        | some c ↦ write_files (with_conflict c conflicts) files o.disk
      ]

  unfoldable pub write_collection_to_directory :
      List ReceivedWebFile → D → Outcome D (List WriteConflict)
  unfolding write_files
  write_collection_to_directory files disk = write_files [] files disk
