-- ===== src/Save/Received.antt =====
-- frontend/src/lib/web-save-location.ts: what `writeReceivedCollection` does in its branches.
use alt_sendme.Prelude.{
  ℕ, ◌≡◌, ◌<◌, refl, true, false, Text, Option, none, some, List, [], ◌∷◌, ◌++◌, map, length, All,
  Bool-cases, inl, inr,
}
use alt_sendme.Zip.Archive.{create_store_only_zip}
use alt_sendme.Zip.Reader.{read_zip}
use alt_sendme.Zip.RoundTrip.{HasShortName, file_of, archive_size, create_store_only_zip-read}
use alt_sendme.Save.Names.{basename, derive_zip_download_name}
use alt_sendme.Save.Folder.{FileSystem, Documented, ReceivedWebFile, write_collection_to_directory}
use alt_sendme.Save.Kept.{Keeps, write_bytes-Keeps, write_files-Keeps}
use alt_sendme.Save.Location.{
  DirectoryHandle, World, allowed, is_simple_single_file, entry_of, download_zip,
  write_received_collection,
}

module _ {D : Type 0} (fs : FileSystem D) (encode : Text → List ℕ) where
  -- Without a folder that may be written, two or more files are downloaded as one archive, under the
  -- name that is derived from their names, from which a reader gets all of them in their order; the
  -- disk is not touched. Their names have at most 65535 bytes, they are at most 65535, and they take
  -- less than 4 GiB with the headers.
  pub write_received_collection-zips :
      (cached : Option DirectoryHandle) (a b : ReceivedWebFile) (files : List ReceivedWebFile)
      (w : World D)
      → allowed cached ≡ false
      → All (HasShortName encode) (map entry_of (a ∷ b ∷ files))
      → length (map entry_of (a ∷ b ∷ files)) < 65536
      → archive_size encode (map entry_of (a ∷ b ∷ files)) < 4294967296
      → let n = write_received_collection fs encode cached (a ∷ b ∷ files) w in
        (zip : List ℕ) × (n.0.downloads
          ≡ w.downloads ++ (derive_zip_download_name (map (λ f. f.name) (a ∷ b ∷ files)), zip) ∷ [])
        × (read_zip zip ≡ some (map (file_of encode) (map entry_of (a ∷ b ∷ files))))
        × (n.0.disk ≡ w.disk)
        × (n.1
            ≡ some (record { saved_to_directory = false; zipped_download = true; conflicts = [] }))
  unfolding write_received_collection
  write_received_collection-zips cached a b files w no_folder short few small =
      let (zip, made, size, read) =
        create_store_only_zip-read encode (entry_of a) (map entry_of (b ∷ files)) short few small in
      (zip, rw (no_folder, made), read, rw (no_folder, made), rw (no_folder, made))

  download_zip-disk :
      (zip : Option (List ℕ)) (name : Text) (w : World D)
      → (download_zip fs encode zip name w).0.disk ≡ w.disk
  download_zip-disk none name w = refl
  download_zip-disk (some bytes) name w = refl

module _ {D : Type 0} (fs : FileSystem D) (doc : Documented fs) (encode : Text → List ℕ) where
  -- In every branch, errors included, every file that stood on the disk stands there after with the
  -- same content.
  pub write_received_collection-Keeps :
      (cached : Option DirectoryHandle) (files : List ReceivedWebFile) (w : World D)
      → Keeps fs doc w.disk (write_received_collection fs encode cached files w).0.disk
  unfolding write_received_collection write_collection_to_directory
  write_received_collection-Keeps cached [] w at name bytes e = e
  write_received_collection-Keeps cached (file ∷ files) w at name bytes e =
      elim (Bool-cases (allowed cached)) [
        | inl writes ↦ elim (Bool-cases (is_simple_single_file (file ∷ files))) [
          | inl simple ↦
              rw (writes, simple)
                (write_bytes-Keeps fs doc [] (basename file.name) file.bytes w.disk at name bytes e)
          | inr several ↦
              rw (writes, several)
                (write_files-Keeps fs doc [] (file ∷ files) w.disk at name bytes e)
        ]
        | inr no_folder ↦ elim (Bool-cases (is_simple_single_file (file ∷ files))) [
          | inl simple ↦ rw (no_folder, simple) e
          | inr several ↦
              rw
                (
                  no_folder,
                  several,
                  download_zip-disk fs encode
                      (create_store_only_zip encode (map entry_of (file ∷ files)))
                      (derive_zip_download_name (map (λ f. f.name) (file ∷ files))) w,
                )
                e
        ]
      ]
