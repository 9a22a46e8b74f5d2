-- ===== src/Save/Location.antt =====
-- frontend/src/lib/web-save-location.ts: where received files are saved: in the chosen folder, as a
-- download, or as a download of one ZIP archive.
use alt_sendme.Prelude.{
  ℕ, Bool, true, false, not, Text, Option, none, some, List, [], ◌∷◌, ◌++◌, map, if◌then◌else◌,
}
use alt_sendme.Zip.Archive.{Entry, create_store_only_zip}
use alt_sendme.Save.Names.{WriteConflict, basename, derive_zip_download_name, has_separator}
use alt_sendme.Save.Folder.{
  FileSystem, ReceivedWebFile, Outcome, with_conflict, write_bytes_to_directory,
  write_collection_to_directory,
}

-- The cached handle of the chosen folder, with the browser's answers about its permission.
pub record DirectoryHandle : Type 0 where
  pub name : Text
  -- `queryPermission` and `requestPermission` answer `granted`
  pub query_granted : Bool
  pub request_granted : Bool

abbrev ensure_dir_write_permission : DirectoryHandle → Bool
ensure_dir_write_permission handle = if handle.query_granted then true else handle.request_granted

-- `initWebSaveLocation`: the name of the saved handle.
abbrev init_web_save_location : Option DirectoryHandle → Text
init_web_save_location none = []
init_web_save_location (some handle) = handle.name

-- `WriteCollectionResult`
pub record WriteCollectionResult : Type 0 where
  pub saved_to_directory : Bool
  pub zipped_download : Bool
  pub conflicts : List WriteConflict

-- The disk, and the downloads that the browser was asked for, with their names.
pub record World (D : Type 0) : Type 0 where
  pub disk : D
  pub downloads : List (Text × List ℕ)

abbrev pub is_simple_single_file : List ReceivedWebFile → Bool
is_simple_single_file [] = false
is_simple_single_file (file ∷ []) = not (has_separator file.name)
is_simple_single_file (file ∷ other ∷ files) = false

abbrev pub allowed : Option DirectoryHandle → Bool
allowed none = false
allowed (some handle) = ensure_dir_write_permission handle

abbrev in_directory : List WriteConflict → WriteCollectionResult
in_directory conflicts = record {
  saved_to_directory = true;
  zipped_download = false;
  conflicts = conflicts;
}

abbrev downloaded : Bool → WriteCollectionResult
downloaded zipped = record { saved_to_directory = false; zipped_download = zipped; conflicts = [] }

abbrev pub entry_of : ReceivedWebFile → Entry
entry_of file = record { path = file.name; bytes = file.bytes }

module _ {D : Type 0} (fs : FileSystem D) (encode : Text → List ℕ) where
  abbrev saved_one :
      Outcome D (Option WriteConflict) → World D → World D × Option WriteCollectionResult
  saved_one o w = (
    record w { disk = o.disk },
    elim o.result [ none ↦ none | some c ↦ some (in_directory (with_conflict c [])) ],
  )

  abbrev saved_all :
      Outcome D (List WriteConflict) → World D → World D × Option WriteCollectionResult
  saved_all o w = (
    record w { disk = o.disk },
    elim o.result [ none ↦ none | some conflicts ↦ some (in_directory conflicts) ],
  )

  -- `triggerBrowserDownload`
  abbrev trigger_browser_download : List ℕ → Text → World D → World D
  trigger_browser_download bytes name w = record w { downloads = w.downloads ++ (name, bytes) ∷ [] }

  abbrev pub download_zip :
      Option (List ℕ) → Text → World D → World D × Option WriteCollectionResult
  download_zip none name w = (w, none)
  download_zip (some zip) name w = (trigger_browser_download zip name w, some (downloaded true))

  -- `writeReceivedCollection`
  unfoldable pub write_received_collection :
      Option DirectoryHandle
      → List ReceivedWebFile
      → World D
      → World D × Option WriteCollectionResult
  unfolding has_separator basename write_bytes_to_directory write_collection_to_directory
      derive_zip_download_name create_store_only_zip
  write_received_collection cached [] w = (w, none)
  write_received_collection cached (file ∷ files) w =
      let all = file ∷ files in
      let simple = is_simple_single_file all in
      if allowed cached
      then if simple
        then saved_one (write_bytes_to_directory fs [] (basename file.name) file.bytes w.disk) w
        else saved_all (write_collection_to_directory fs all w.disk) w
      else if simple
      then (trigger_browser_download file.bytes (basename file.name) w, some (downloaded false))
      else download_zip (create_store_only_zip encode (map entry_of all))
          (derive_zip_download_name (map (λ f. f.name) all)) w

  -- `writeReceivedFile`
  unfoldable pub write_received_file :
      Option DirectoryHandle → Text → List ℕ → World D → World D × Option WriteCollectionResult
  unfolding write_received_collection
  write_received_file cached name bytes =
      write_received_collection cached (record { name = name; bytes = bytes } ∷ [])
