-- ===== src/Save/Kept.antt =====
-- frontend/src/lib/web-save-location.ts: saving overwrites no file, and what is saved can be read.
use alt_sendme.Prelude.{
  ℕ, ◌≡◌, refl, ◌∙◌, sym, ap, subst, true, false, Text, Option, none, some, List, [], ◌∷◌, ◌++◌,
  is_some, Option-cases, Bool-cases, ◌⊎◌, inl, inr, All, non_empty, split, to_slashes,
}
use alt_sendme.Save.Names.{Resolved, WriteConflict, resolve_writable_file_name}
use alt_sendme.Save.Resolve.{resolve_writable_file_name-free}
use alt_sendme.Save.Folder.{
  FileSystem, Documented, ReceivedWebFile, Outcome, file_exists, write_resolved,
  write_bytes_to_directory, open_folders, folder_of_parts, get_directory_for_relative_path,
  write_at, write_file, with_conflict, write_files, write_collection_to_directory,
}

module _ {D : Type 0} (fs : FileSystem D) (doc : Documented fs) where
  -- Every file on the first disk is on the second, with the same content.
  abbrev pub Keeps : D → D → Type 0
  Keeps disk later =
      (at : List Text) (name : Text) (bytes : List ℕ)
      → fs.read at name disk ≡ some bytes
      → fs.read at name later ≡ some bytes

  write-Keeps :
      (folder : List Text) (name : Text) (bytes : List ℕ) (disk : D)
      → file_exists fs folder disk name ≡ false
      → Keeps disk (fs.write folder name bytes disk).0
  unfolding file_exists
  write-Keeps folder name bytes disk free at other content e =
      doc.write_others folder name bytes disk at other (λ same.
        cc (ap (λ (p : List Text × Text). is_some (fs.read p.0 p.1 disk)) same, free, ap is_some e))
      ∙ e

  write_resolved-Keeps :
      (folder : List Text) (bytes : List ℕ) (disk : D) (o : Option Resolved)
      → ((r : Resolved) → o ≡ some r → file_exists fs folder disk r.file_name ≡ false)
      → Keeps disk (write_resolved fs folder bytes disk o).disk
  write_resolved-Keeps folder bytes disk none free at name content e = e
  write_resolved-Keeps folder bytes disk (some r) free at name content e =
      write-Keeps folder r.file_name bytes disk (free r refl) at name content e

  pub write_bytes-Keeps :
      (folder : List Text) (name : Text) (bytes : List ℕ) (disk : D)
      → Keeps disk (write_bytes_to_directory fs folder name bytes disk).disk
  unfolding write_bytes_to_directory
  write_bytes-Keeps folder name bytes disk =
      write_resolved-Keeps folder bytes disk
        (resolve_writable_file_name (file_exists fs folder disk) name)
        (resolve_writable_file_name-free (file_exists fs folder disk) name)

  open_folders-Keeps :
      (folder : List Text) (name : Text) (parts : List Text) (disk : D)
      → Keeps disk (open_folders fs folder name parts disk).disk
  unfolding open_folders
  open_folders-Keeps folder name [] disk at other bytes e = e
  open_folders-Keeps folder part (next ∷ parts) disk at other bytes e =
      let opened = (fs.open_folder folder part disk).0 in
      let kept : fs.read at other opened ≡ some bytes =
        doc.open_keeps folder part disk at other ∙ e in
      elim (Bool-cases (fs.open_folder folder part disk).1) [
        | inl ok ↦
            rw ok (open_folders-Keeps (folder ++ part ∷ []) next parts opened at other bytes kept)
        | inr bad ↦ rw bad kept
      ]

  folder_of_parts-Keeps :
      (parts : List Text) (disk : D) → Keeps disk (folder_of_parts fs parts disk).disk
  folder_of_parts-Keeps [] disk at name bytes e = e
  folder_of_parts-Keeps (part ∷ parts) disk at name bytes e =
      open_folders-Keeps [] part parts disk at name bytes e

  write_at-Keeps :
      (o : Outcome D (List Text × Text)) (bytes : List ℕ) → Keeps o.disk (write_at fs o bytes).disk
  write_at-Keeps o bytes at name content e = elim (Option-cases o.result) [
    | inl bad ↦ rw bad e
    | inr (place, good) ↦ rw good (write_bytes-Keeps place.0 place.1 bytes o.disk at name content e)
  ]

  write_file-Keeps : (file : ReceivedWebFile) (disk : D) → Keeps disk (write_file fs file disk).disk
  unfolding write_file get_directory_for_relative_path
  write_file-Keeps file disk at name bytes e =
      let parts = non_empty (split b'/' (to_slashes (to_slashes file.name))) in
      write_at-Keeps (folder_of_parts fs parts disk) file.bytes at name bytes
        (folder_of_parts-Keeps parts disk at name bytes e)

  pub write_files-Keeps :
      (conflicts : List WriteConflict) (files : List ReceivedWebFile) (disk : D)
      → Keeps disk (write_files fs conflicts files disk).disk
  unfolding write_files
  write_files-Keeps conflicts [] disk at name bytes e = e
  write_files-Keeps conflicts (file ∷ files) disk at name bytes e =
      let o = write_file fs file disk in
      let kept = write_file-Keeps file disk at name bytes e in
      elim (Option-cases o.result) [
        | inl bad ↦ rw (bad, write_files) kept
        | inr (c, good) ↦
            rw (good, write_files)
              (write_files-Keeps (with_conflict c conflicts) files o.disk at name bytes kept)
      ]

  -- The disk has a file of the content.
  abbrev pub Holds : D → List ℕ → Type 0
  Holds disk bytes = (at : List Text) × (name : Text) × (fs.read at name disk ≡ some bytes)

  write_resolved-Holds :
      (folder : List Text) (bytes : List ℕ) (disk : D) (o : Option Resolved)
      (c : Option WriteConflict)
      → (write_resolved fs folder bytes disk o).result ≡ some c
      → Holds (write_resolved fs folder bytes disk o).disk bytes
  write_resolved-Holds folder bytes disk none c e = cc
  write_resolved-Holds folder bytes disk (some r) c e =
      elim (Bool-cases (fs.write folder r.file_name bytes disk).1) [
        | inl good ↦ (folder, r.file_name, doc.write_reads folder r.file_name bytes disk good)
        | inr bad ↦ cc (bad, e)
      ]

  write_at-Holds :
      (o : Outcome D (List Text × Text)) (bytes : List ℕ) (c : Option WriteConflict)
      → (write_at fs o bytes).result ≡ some c
      → Holds (write_at fs o bytes).disk bytes
  unfolding write_bytes_to_directory
  write_at-Holds o bytes c e = elim (Option-cases o.result) [
    | inl bad ↦ cc (rw bad at e)
    | inr (place, good) ↦ rw good (
        write_resolved-Holds place.0 bytes o.disk
          (resolve_writable_file_name (file_exists fs place.0 o.disk) place.1) c (rw good at e))
  ]

  write_file-Holds :
      (file : ReceivedWebFile) (disk : D) (c : Option WriteConflict)
      → (write_file fs file disk).result ≡ some c
      → Holds (write_file fs file disk).disk file.bytes
  unfolding write_file
  write_file-Holds file disk c e =
      write_at-Holds (get_directory_for_relative_path fs (to_slashes file.name) disk) file.bytes c e

  -- Every file of the list is on the disk.
  abbrev pub Saved : D → List ReceivedWebFile → Type 0
  Saved disk files = All (λ file. Holds disk file.bytes) files

  write_files-Saved :
      (conflicts : List WriteConflict) (files : List ReceivedWebFile) (disk : D)
      → is_some (write_files fs conflicts files disk).result ≡ true
      → Saved (write_files fs conflicts files disk).disk files
  unfolding write_files
  write_files-Saved conflicts [] disk e = tt
  write_files-Saved conflicts (file ∷ files) disk e =
      let o = write_file fs file disk in
      elim (Option-cases o.result) [
        | inl bad ↦ cc (rw (bad, write_files) at e)
        | inr (c, good) ↦
            let more = with_conflict c conflicts in
            let held = write_file-Holds file disk c good in
            let next : write_files fs conflicts (file ∷ files) disk
                ≡ write_files fs more files o.disk =
              rw (good, write_files) in
            subst (λ r. Saved r.disk (file ∷ files)) (sym next)
              (
                (
                  held.0,
                  held.1,
                  write_files-Keeps more files o.disk held.0 held.1 file.bytes held.2,
                ),
                write_files-Saved more files o.disk (rw (good, write_files) at e),
              )
      ]

  -- Saving a collection overwrites no file: whatever stood on the disk before stands there after,
  -- with the same content, also where an error ends it early. If it succeeds, every received file
  -- is on the disk with its content.
  pub write_collection_to_directory-safe :
      (files : List ReceivedWebFile) (disk : D)
      → let o = write_collection_to_directory fs files disk in
        Keeps disk o.disk × ((is_some o.result ≡ false) ⊎ Saved o.disk files)
  unfolding write_collection_to_directory
  write_collection_to_directory-safe files disk = (
    write_files-Keeps [] files disk,
    elim (Bool-cases (is_some (write_files fs [] files disk).result)) [
      | inl good ↦ inr (write_files-Saved [] files disk good)
      | inr bad ↦ inl bad
    ],
  )
