-- ===== src/Save/Tests.antt =====
-- Saving on a small disk: a map from places to contents, in which every call succeeds.
use alt_sendme.Prelude.{
  ℕ, zero, suc, ◌||◌, ◌≡◌, refl, Bool, true, false, ◌&&◌, Text, codes, Option, none, some, List, [],
  ◌∷◌, map, text_eq, text_eq_iff, text_eq_refl, if◌then◌else◌, ◌↔◌, arith, is_some, ◌⊎◌, to_slashes,
}
use alt_sendme.Zip.Reader.{read_zip}
use alt_sendme.Zip.RoundTrip.{file_of}
use alt_sendme.Save.Names.{resolve_conflict_name, derive_zip_download_name}
use alt_sendme.Save.Resolve.{AllTaken, candidate_at}
use alt_sendme.Save.Folder.{FileSystem, Documented, ReceivedWebFile, write_collection_to_directory}
use alt_sendme.Save.Kept.{Keeps, Saved, write_collection_to_directory-safe}
use alt_sendme.Save.Location.{World, entry_of, write_received_collection}
use alt_sendme.Save.Received.{write_received_collection-zips, write_received_collection-Keeps}

abbrev path_eq : List Text → List Text → Bool
path_eq [] [] = true
path_eq [] (q ∷ qs) = false
path_eq (p ∷ ps) [] = false
path_eq (p ∷ ps) (q ∷ qs) = text_eq p q && path_eq ps qs

path_eq_iff : (a b : List Text) → (path_eq a b ≡ true) ↔ (a ≡ b)
path_eq_iff [] [] = ground arith
path_eq_iff [] (q ∷ qs) = ground arith
path_eq_iff (p ∷ ps) [] = ground arith
path_eq_iff (p ∷ ps) (q ∷ qs) = ground (arith, text_eq_iff p q, path_eq_iff ps qs)

abbrev pub Disk : Type 0
Disk = List Text → Text → Option (List ℕ)

abbrev pub memory : FileSystem Disk
memory = record {
  read = λ at name disk. disk at name;
  open_folder = λ at part disk. (disk, true);
  write = λ folder name bytes disk. (
    λ at other. if path_eq folder at && text_eq name other then some bytes else disk at other,
    true,
  );
}

pub memory-Documented : Documented memory
memory-Documented = record {
  write_others = λ folder name bytes disk at other differ.
      ground (arith, differ, path_eq_iff folder at, text_eq_iff name other);
  write_reads =
      λ folder name bytes disk ok. ground (arith, text_eq_refl name, path_eq_iff folder folder);
  open_keeps = λ folder part disk at other. refl;
}

-- A disk with the file `a.txt` in the chosen folder.
abbrev one_file : Disk
one_file at name = if path_eq [] at && text_eq (codes "a.txt") name then some (7 ∷ []) else none

abbrev pub start : World Disk
start = record { disk = one_file; downloads = [] }

abbrev letter : ReceivedWebFile
letter = record { name = codes "a.txt"; bytes = 1 ∷ 2 ∷ [] }

abbrev nested : ReceivedWebFile
nested = record { name = codes "d/b"; bytes = 3 ∷ [] }

abbrev pub ascii : Text → List ℕ
ascii t = t

numbered_name : resolve_conflict_name (codes "a.tar.gz") 12 ≡ codes "a.tar (12).gz"
unfolding resolve_conflict_name
numbered_name = refl

hidden_name : resolve_conflict_name (codes ".rc") 1 ≡ codes ".rc (1)"
unfolding resolve_conflict_name
hidden_name = refl

zip_name : derive_zip_download_name (codes "d/a" ∷ codes "d\\b" ∷ []) ≡ codes "d.zip"
unfolding derive_zip_download_name text_eq
zip_name = refl

-- The names `a.txt` and `a (1).txt` are taken.
abbrev two_taken : Text → Bool
two_taken name = text_eq name (codes "a.txt") || text_eq name (codes "a (1).txt")

below_two :
    (exists : Text → Bool) (name : Text)
    → exists (candidate_at name 0) ≡ true
    → exists (candidate_at name 1) ≡ true
    → AllTaken exists name 0 2
below_two exists name a b zero h = a
below_two exists name a b (suc zero) h = b
below_two exists name a b (suc (suc j)) h = absurd (omega (arith, h))

write_collection_to_directory-safe_example :
    let o = write_collection_to_directory memory (letter ∷ nested ∷ []) one_file in
    Keeps memory memory-Documented one_file o.disk
    × ((is_some o.result ≡ false) ⊎ Saved memory memory-Documented o.disk (letter ∷ nested ∷ []))
write_collection_to_directory-safe_example =
    write_collection_to_directory-safe memory memory-Documented (letter ∷ nested ∷ []) one_file

write_received_collection-Keeps_example :
    Keeps memory memory-Documented one_file
      (write_received_collection memory ascii none (letter ∷ []) start).0.disk
write_received_collection-Keeps_example =
    write_received_collection-Keeps memory memory-Documented ascii none (letter ∷ []) start

write_received_collection-zips_example :
    let n = write_received_collection memory ascii none (letter ∷ nested ∷ []) start in
    (zip : List ℕ) × (n.0.downloads
      ≡ (derive_zip_download_name (codes "a.txt" ∷ codes "d/b" ∷ []), zip) ∷ [])
    × (read_zip zip ≡ some (map (file_of ascii) (map entry_of (letter ∷ nested ∷ []))))
    × (n.0.disk ≡ one_file)
    × (n.1 ≡ some (record { saved_to_directory = false; zipped_download = true; conflicts = [] }))
unfolding to_slashes
write_received_collection-zips_example =
    write_received_collection-zips memory ascii none letter nested [] start refl
      (omega arith, (omega arith, tt)) (omega arith) (omega arith)
