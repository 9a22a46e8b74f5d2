-- ===== src/Web/Files.antt =====
-- frontend/src/lib/web-file-store.ts: the files that the browser's user has chosen, in memory.
use alt_sendme.Prelude.{
  ℕ, Bool, true, false, ◌&&◌, ◌||◌, Text, text_eq, Option, none, some, List, [], ◌∷◌, ◌++◌, get,
  put, delete, contains, add, if◌then◌else◌, ◌==◌,
}

-- A `File`, with its content.
pub record WebFile : Type 0 where
  pub name : Text
  pub type : Text
  pub bytes : List ℕ
  pub webkit_relative_path : Option Text

-- `filesByPath` and `directoryPaths`
pub record Files : Type 0 where
  pub files_by_path : List (Text × WebFile)
  pub directory_paths : List Text

-- `set.delete(path)`
unfoldable pub without_path : Text → List Text → List Text
without_path path [] = []
without_path path (p ∷ paths) =
    if text_eq p path then without_path path paths else p ∷ without_path path paths

unfoldable pub register_web_file : Text → WebFile → Files → Files
unfolding put without_path
register_web_file path file s = record {
  files_by_path = put path file s.files_by_path;
  directory_paths = without_path path s.directory_paths;
}

unfoldable pub register_web_directory : Text → Files → Files
unfolding delete add
register_web_directory path s = record {
  directory_paths = add path s.directory_paths;
  files_by_path = delete path s.files_by_path;
}

unfoldable pub get_web_file : Files → Text → Option WebFile
unfolding get
get_web_file s path = get path s.files_by_path

unfoldable pub is_web_directory : Files → Text → Bool
unfolding contains
is_web_directory s path = contains path s.directory_paths

unfoldable pub clear_web_file : Text → Files → Files
unfolding delete without_path
clear_web_file path s = record {
  files_by_path = delete path s.files_by_path;
  directory_paths = without_path path s.directory_paths;
}

abbrev pub clear_web_files : Files
clear_web_files = record { files_by_path = []; directory_paths = [] }

abbrev relative_or : Option Text → Text → Text
relative_or none name = name
relative_or (some []) name = name
relative_or (some (c ∷ path)) name = c ∷ path

unfoldable pub web_file_path_key : WebFile → Text
web_file_path_key file = relative_or file.webkit_relative_path file.name

-- `text.startsWith(prefix)`
abbrev pub starts_with : Text → Text → Bool
starts_with [] text = true
starts_with (c ∷ prefix) [] = false
starts_with (c ∷ prefix) (d ∷ text) = c == d && starts_with prefix text

unfoldable pub entries_under : Text → List (Text × WebFile) → List (Text × WebFile)
unfolding text_eq
entries_under path [] = []
entries_under path ((file_path, file) ∷ entries) =
    let rest = entries_under path entries in
    if text_eq file_path path || starts_with (path ++ b'/' ∷ []) file_path
    then (file_path, file) ∷ rest
    else rest

unfoldable pub list_web_file_entries_under_path : Files → Text → List (Text × WebFile)
unfolding entries_under
list_web_file_entries_under_path s path = entries_under path s.files_by_path
