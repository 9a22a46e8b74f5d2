-- ===== src/Web/Dropped.antt =====
-- frontend/src/lib/web-drag-drop.ts with the files that are sent: what a dropped folder leaves.
use alt_sendme.Prelude.{
  ℕ, ◌≤◌, ◌≡◌, refl, sym, ap, subst, ◌∙◌, Bool, true, false, ◌||◌, Text, text_eq, text_eq_iff,
  is_empty, Option, none, some, List, [], ◌∷◌, ◌++◌, get, get-put, get-delete, arith, if◌then◌else◌,
  inl, inr, Bool-cases,
}
use alt_sendme.Transfer.{directory}
use alt_sendme.Web.Files.{
  WebFile, Files, register_web_file, register_web_directory, get_web_file, is_web_directory,
  entries_under, list_web_file_entries_under_path, starts_with,
}
use alt_sendme.Web.Registered.{contains-add, contains-without}
use alt_sendme.Web.Entries.{Answers, directory_entry, read_entry_recursively}
use alt_sendme.Web.Reading.{files_of, depth, read_entry_recursively-ends}
use alt_sendme.Web.Inside.{IsInside, IsInside-not_folder, AllInside, answers-AllInside}
use alt_sendme.Web.Drop.{
  Item, entry_item, process_web_data_transfer, register_nested, drop_nested, drop_folder,
  resolve_path_type,
}

-- The last of `found` at `path`, if there is one, and `old` if not.
abbrev pub newest : Text → List (Text × WebFile) → Option WebFile → Option WebFile
newest path [] old = old
newest path ((p, f) ∷ found) old = newest path found (if text_eq p path then some f else old)

register_nested-get :
    (path : Text) (nested : List (Text × WebFile)) (s : Files)
    → get_web_file (register_nested nested s) path ≡ newest path nested (get_web_file s path)
unfolding register_nested register_web_file get_web_file
register_nested-get path [] s = refl
register_nested-get path ((p, f) ∷ nested) s =
    register_nested-get path nested (register_web_file p f s)
    ∙ ap (newest path nested) (get-put p path f s.files_by_path)

abbrev pub is_under : Text → Text → Bool
is_under folder path = text_eq path folder || starts_with (folder ++ b'/' ∷ []) path

pub entries_under-get :
    (folder path : Text) (m : List (Text × WebFile))
    → get path (entries_under folder m) ≡ (if is_under folder path then get path m else none)
unfolding get entries_under
entries_under-get folder path [] = ground arith
entries_under-get folder path ((p, f) ∷ m) = elim (Bool-cases (text_eq p path)) [
  | inl e ↦
      let same : is_under folder p ≡ is_under folder path =
        ap (is_under folder) ((text_eq_iff p path).0 e) in
      elim (Bool-cases (is_under folder p)) [
        | inl u ↦ rw (u, e, sym same, u) refl
        | inr u ↦ rw (u, e, sym same, u) (entries_under-get folder path m ∙ rw (sym same, u) refl)
      ]
  | inr e ↦ elim (Bool-cases (is_under folder p)) [
    | inl u ↦ rw (u, e) (entries_under-get folder path m)
    | inr u ↦ rw (u, e) (entries_under-get folder path m)
  ]
]

register_nested-directory :
    (folder : Text) (nested : List (Text × WebFile)) (s : Files)
    → AllInside folder (some nested)
    → is_web_directory s folder ≡ true
    → is_web_directory (register_nested nested s) folder ≡ true
unfolding register_nested register_web_file is_web_directory
register_nested-directory folder [] s h d = d
register_nested-directory folder ((p, f) ∷ nested) s h d =
    register_nested-directory folder nested (register_web_file p f s) (h.1) (
      ground (
        arith,
        contains-without folder p s.directory_paths,
        IsInside-not_folder folder p (h.0),
        text_eq_iff p folder,
        text_eq_iff folder p,
      ))

register_web_directory-get :
    (folder path : Text) (s : Files)
    → text_eq folder path ≡ false
    → get_web_file (register_web_directory folder s) path ≡ get_web_file s path
unfolding register_web_directory get_web_file
register_web_directory-get folder path s h = get-delete folder path s.files_by_path ∙ rw (h) refl

register_web_directory-is :
    (folder : Text) (s : Files) → is_web_directory (register_web_directory folder s) folder ≡ true
unfolding register_web_directory is_web_directory
register_web_directory-is folder s =
    ground (arith, contains-add folder folder s.directory_paths, text_eq_iff folder folder)

abbrev pub folder_item : Text → Answers → Item
folder_item name answers = entry_item (directory_entry name answers)

process-folder :
    (n : ℕ) (name : Text) (answers : Answers) (nested : List (Text × WebFile))
    (files : List WebFile) (s : Files)
    → read_entry_recursively n [] (directory_entry name answers) ≡ some nested
    → process_web_data_transfer n
        (record { items = folder_item name answers ∷ []; files = files })
        s
      ≡ (
        register_nested nested (register_web_directory name s),
        some (record { paths = name ∷ []; path_type = some directory }),
      )
unfolding process_web_data_transfer drop_nested drop_folder resolve_path_type
process-folder n name answers nested files s e = rw (e) refl

folder-lists :
    (name : Text) (nested : List (Text × WebFile)) (s : Files) (path : Text)
    → AllInside name (some nested)
    → IsInside name path
    → let t = register_nested nested (register_web_directory name s) in
      (is_web_directory t name ≡ true)
      × (get path (list_web_file_entries_under_path t name)
          ≡ newest path nested (get_web_file s path))
unfolding list_web_file_entries_under_path get_web_file
folder-lists name nested s path all i =
    let t = register_nested nested (register_web_directory name s) in
    let under : is_under name path ≡ true = ground (arith, i) in
    let held : get_web_file t path ≡ newest path nested (get_web_file s path) =
      register_nested-get path nested (register_web_directory name s)
      ∙ ap (newest path nested)
          (register_web_directory-get name path s (IsInside-not_folder name path i)) in
    (
      register_nested-directory name nested (register_web_directory name s) all
          (register_web_directory-is name s),
      entries_under-get name path t.files_by_path ∙ rw (under) held,
    )

-- A dropped folder and the files that it sends: if a named folder is dropped, and the browser gives
-- all its batches and files, then the drop gives its name as the one path, a directory, which the
-- store holds as such; and of any path inside the folder, the folder's files are now the last one
-- that was read at that path, and, where none was read, what the store held before.
pub drop_folder-lists :
    (n : ℕ) (name : Text) (answers : Answers) (nested : List (Text × WebFile))
    (files : List WebFile) (s : Files) (path : Text)
    → is_empty name ≡ false
    → depth (directory_entry name answers) ≤ n
    → files_of [] (directory_entry name answers) ≡ some nested
    → IsInside name path
    → let r =
        process_web_data_transfer n
          (record { items = folder_item name answers ∷ []; files = files })
          s in
      (r.1 ≡ some (record { paths = name ∷ []; path_type = some directory }))
      × (is_web_directory (r.0) name ≡ true)
      × (get path (list_web_file_entries_under_path (r.0) name)
          ≡ newest path nested (get_web_file s path))
unfolding files_of
drop_folder-lists n name answers nested files s path h d e i =
    let one =
      process-folder n name answers nested files s
        (read_entry_recursively-ends n [] (directory_entry name answers) d ∙ e) in
    let held =
      folder-lists name nested s path (subst (AllInside name) e (answers-AllInside name answers h))
        i in
    rw (one) (refl, held.0, held.1)
