-- ===== src/Web/Told.antt =====
-- frontend/src/lib/web-send-metadata.ts with web-send-items.ts: what is told of a path, and what it sends.
use mathlib.Core.Sum.{inl-ne-inr}
use alt_sendme.Prelude.{
  ℕ, ◌+◌, ◌≡◌, refl, ap, ◌∙◌, Text, Option, none, some, List, [], ◌∷◌, ◌++◌, map, length, ◌⊎◌, inl,
  inr, Bool-cases, Option-cases, arith, if◌then◌else◌,
}
use alt_sendme.Web.Files.{
  WebFile, Files, get_web_file, is_web_directory, list_web_file_entries_under_path,
}
use alt_sendme.Web.Send.{Payload, push_entries, entries_of, entries_of_folder, entries_of_file}
use alt_sendme.Web.Preview.{
  PreviewItem, file_size, list_web_files_under_path, add_sizes, item_details, size_or_none,
  file_details, web_mime_type, directory_type,
}

-- How many bytes contents have.
abbrev pub bytes_in : List (List ℕ) → ℕ
bytes_in [] = 0
bytes_in (bytes ∷ contents) = length bytes + bytes_in contents

abbrev pub sum_items : List PreviewItem → ℕ
sum_items [] = 0
sum_items (item ∷ items) = item.size + sum_items items

add_sizes-from : (n : ℕ) (files : List WebFile) → add_sizes n files ≡ n + add_sizes 0 files
add_sizes-from n [] = omega arith
add_sizes-from n (f ∷ files) =
    omega
      (arith, add_sizes-from (n + length f.bytes) files, add_sizes-from (0 + length f.bytes) files)

bytes_in-append : (xs ys : List (List ℕ)) → bytes_in (xs ++ ys) ≡ bytes_in xs + bytes_in ys
bytes_in-append [] ys = omega arith
bytes_in-append (x ∷ xs) ys = omega (arith, bytes_in-append xs ys)

abbrev files_in : List (Text × WebFile) → List WebFile
files_in entries = map (λ entry. entry.1) entries

pub push_entries-bytes :
    (p : Payload) (entries : List (Text × WebFile))
    → bytes_in (push_entries p entries).bytes_list
      ≡ bytes_in p.bytes_list + add_sizes 0 (files_in entries)
push_entries-bytes p [] = omega arith
push_entries-bytes p ((path, f) ∷ entries) = omega (
  arith,
  push_entries-bytes
      (record { names = p.names ++ path ∷ []; bytes_list = p.bytes_list ++ f.bytes ∷ [] }) entries,
  bytes_in-append p.bytes_list (f.bytes ∷ []),
  add_sizes-from (0 + length f.bytes) (files_in entries),
)

-- The size of a path's item, where it has one.
abbrev pub size_told : Option (ℕ × Text) → ℕ
size_told none = 0
size_told (some details) = details.0

abbrev pub size_step : Files → ℕ → Text → ℕ
size_step s total path =
    if is_web_directory s path
    then add_sizes total (list_web_files_under_path s path)
    else total + size_or_none (get_web_file s path)

pub size_step-told :
    (s : Files) (total : ℕ) (path : Text)
    → size_step s total path ≡ total + size_told (item_details s path)
unfolding item_details
size_step-told s total path = elim (Bool-cases (is_web_directory s path)) [
  | inl folder ↦ rw (folder) (add_sizes-from total (list_web_files_under_path s path))
  | inr single ↦ elim (Option-cases (get_web_file s path)) [
    | inl e ↦ rw (single, e) refl
    | inr (f, e) ↦ rw (single, e) refl
  ]
]

abbrev pub right_of : {A B : Type 0} (a b : B) → A ⊎ B → B
right_of a b (inl x) = a
right_of a b (inr y) = y

folder-listed :
    (path : Text) (listed entries : List (Text × WebFile))
    → entries_of_folder path listed ≡ inr entries
    → listed ≡ entries
folder-listed path [] entries e = absurd (inl-ne-inr e)
folder-listed path (x ∷ listed) entries e = ap (right_of [] []) e

-- What is told of a path that sends something: its size is that of what it sends.
abbrev Told : Files → Text → List (Text × WebFile) → Type 0
Told s path entries =
    (details : ℕ × Text) × (item_details s path ≡ some details)
    × (details.0 ≡ add_sizes 0 (files_in entries))

file-Told :
    (path : Text) (o : Option WebFile) (entries : List (Text × WebFile))
    → entries_of_file path o ≡ inr entries
    → (details : ℕ × Text) × (file_details o ≡ some details)
      × (details.0 ≡ add_sizes 0 (files_in entries))
file-Told path none entries e = absurd (inl-ne-inr e)
file-Told path (some f) entries e = (
  (file_size f, web_mime_type f),
  refl,
  (let same : length f.bytes ≡ 0 + length f.bytes = omega arith in
      same ∙ ap (λ es. add_sizes 0 (files_in es)) (ap (right_of [] []) e)),
)

pub entries_of-Told :
    (s : Files) (path : Text) (entries : List (Text × WebFile))
    → entries_of s path ≡ inr entries
    → Told s path entries
unfolding entries_of item_details
entries_of-Told s path entries e = elim (Bool-cases (is_web_directory s path)) [
  | inl folder ↦
      let listed = list_web_file_entries_under_path s path in
      let same : listed ≡ entries = folder-listed path listed entries (rw (folder) at e) in
      (
        (add_sizes 0 (files_in listed), directory_type),
        (rw (folder) refl),
        ap (λ es. add_sizes 0 (files_in es)) same,
      )
  | inr single ↦
      let told = file-Told path (get_web_file s path) entries (rw (single) at e) in
      (told.0, (rw (single) told.1), told.2)
]
