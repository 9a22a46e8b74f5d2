-- ===== src/Bridge/Picking.antt =====
-- frontend/src/lib/platform-api.ts, pickPathsInBrowser: the files that the page's file input gives are
-- registered.
use alt_sendme.Prelude.{
  Bool, Text, List, [], ◌∷◌, head?, or_else, split, is_empty, add, if◌then◌else◌,
}
use alt_sendme.Web.Files.{
  WebFile, Files, register_web_file, register_web_directory, web_file_path_key,
}
use alt_sendme.Web.Drop.{register_plain_files}

pub record DialogOptions : Type 0 where
  pub multiple : Bool
  pub directory : Bool

-- `null`, a path or several.
pub data PickedPaths : Type 0 where
  no_paths : PickedPaths
  one_path : Text → PickedPaths
  several_paths : List Text → PickedPaths

abbrev first_of : List Text → PickedPaths
first_of [] = no_paths
first_of (path ∷ paths) = one_path path

abbrev result_of : Bool → List Text → PickedPaths
result_of multiple paths = if multiple then several_paths paths else first_of paths

-- `const [root] = path.split('/')`, if it is not empty, goes into the set.
abbrev add_root : Text → List Text → List Text
add_root path top_level =
    let root = or_else (head? (split b'/' path)) [] in
    if is_empty root then top_level else add root top_level

-- The files of a folder are registered, and the names of their top folders collected.
unfoldable pub register_in_folders : List WebFile → List Text → Files → Files × List Text
unfolding register_web_file web_file_path_key split add
register_in_folders [] top_level s = (s, top_level)
register_in_folders (f ∷ fs) top_level s =
    register_in_folders fs (add_root (web_file_path_key f) top_level)
      (register_web_file (web_file_path_key f) f s)

unfoldable pub register_folders : List Text → Files → Files
unfolding register_web_directory
register_folders [] s = s
register_folders (folder ∷ folders) s = register_folders folders (register_web_directory folder s)

abbrev picked_folders : Bool → Files × List Text → Files × PickedPaths
picked_folders multiple (s, folders) = (register_folders folders s, result_of multiple folders)

abbrev picked_files : Bool → Files × List Text → Files × PickedPaths
picked_files multiple (s, paths) = (s, result_of multiple paths)

-- What `change` does for the files; without files, as for `cancel`, nothing is picked.
unfoldable pub pick_paths_in_browser : DialogOptions → List WebFile → Files → Files × PickedPaths
unfolding register_in_folders register_folders register_plain_files
pick_paths_in_browser options [] s = (s, no_paths)
pick_paths_in_browser options (f ∷ fs) s =
    if options.directory
    then picked_folders options.multiple (register_in_folders (f ∷ fs) [] s)
    else picked_files options.multiple (register_plain_files (f ∷ fs) s)
