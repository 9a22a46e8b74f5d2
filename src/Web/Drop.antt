-- ===== src/Web/Drop.antt =====
-- frontend/src/lib/web-drag-drop.ts: what is dropped is registered. The reading of the entries, which
-- the code awaits, is done at once.
use alt_sendme.Prelude.{
  ℕ, Bool, true, false, not, ◌&&◌, Text, Option, none, some, List, [], ◌∷◌, ◌++◌, length, ◌==◌,
  if◌then◌else◌,
}
use alt_sendme.Transfer.{PathType, file, directory}
use alt_sendme.Web.Files.{
  WebFile, Files, register_web_file, register_web_directory, web_file_path_key,
}
use alt_sendme.Web.Entries.{
  Entry, file_entry, directory_entry, other_entry, Found, read_entry_recursively,
}

-- A `DataTransferItem`: of another kind than 'file', without an entry, or with one.
pub data Item : Type 0 where
  text_item : Item
  plain_item : Option WebFile → Item
  entry_item : Entry → Item

pub record DataTransfer : Type 0 where
  pub items : List Item
  pub files : List WebFile

pub record WebDropResult : Type 0 where
  pub paths : List Text
  pub path_type : Option PathType

-- The variables of processWebDataTransfer, with the store; nothing more is done once it was rejected.
pub record Drop : Type 0 where
  pub store : Files
  pub top_level_paths : List Text
  pub has_directory : Bool
  pub has_file : Bool
  pub is_rejected : Bool

unfoldable pub resolve_path_type : List Text → Bool → Bool → Option PathType
resolve_path_type paths has_directory has_file =
    if length paths == 1
    then (if has_directory && not has_file
        then some directory
        else if has_file && not has_directory
        then some file
        else none)
    else if has_directory && not has_file
    then some directory
    else none

unfoldable pub register_plain_files : List WebFile → Files → Files × List Text
unfolding web_file_path_key register_web_file
register_plain_files [] s = (s, [])
register_plain_files (f ∷ fs) s =
    let rest = register_plain_files fs (register_web_file (web_file_path_key f) f s) in
    (rest.0, web_file_path_key f ∷ rest.1)

unfoldable pub register_nested : List (Text × WebFile) → Files → Files
unfolding register_web_file
register_nested [] s = s
register_nested ((path, f) ∷ nested) s = register_nested nested (register_web_file path f s)

abbrev reject : Drop → Drop
reject d = record d { is_rejected = true }

-- A file of the top level.
unfoldable pub drop_file : WebFile → Drop → Drop
unfolding web_file_path_key register_web_file
drop_file f d = record d {
  store = register_web_file (web_file_path_key f) f d.store;
  top_level_paths = d.top_level_paths ++ web_file_path_key f ∷ [];
  has_file = true;
}

-- A folder of the top level has been read.
unfoldable pub drop_nested : Found → Drop → Drop
unfolding register_nested
drop_nested none d = reject d
drop_nested (some nested) d = record d { store = register_nested nested d.store }

unfoldable pub drop_folder : Text → Drop → Drop
unfolding register_web_directory
drop_folder name d = record d {
  has_directory = true;
  store = register_web_directory name d.store;
  top_level_paths = d.top_level_paths ++ name ∷ [];
}

unfoldable pub drop_item : ℕ → Item → Drop → Drop
unfolding drop_file drop_nested drop_folder read_entry_recursively
drop_item n text_item d = d
drop_item n (plain_item none) d = d
drop_item n (plain_item (some f)) d = drop_file f d
drop_item n (entry_item (directory_entry name answers)) d =
    drop_nested (read_entry_recursively n [] (directory_entry name answers)) (drop_folder name d)
drop_item n (entry_item (file_entry name none)) d = reject (record d { has_file = true })
drop_item n (entry_item (file_entry name (some f))) d = drop_file f d
drop_item n (entry_item other_entry) d = d

unfoldable pub drop_items : ℕ → List Item → Drop → Drop
unfolding drop_item
drop_items n [] d = d
drop_items n (i ∷ is) d =
    let next = drop_item n i d in if next.is_rejected then next else drop_items n is next

abbrev dropped_files : Files × List Text → Files × Option WebDropResult
dropped_files (s, paths) =
    (s, some (record { paths = paths; path_type = if length paths == 1 then some file else none }))

abbrev drop_result : Drop → Files × Option WebDropResult
drop_result d = (
  d.store,
  if d.is_rejected
      then none
      else some (record {
        paths = d.top_level_paths;
        path_type = resolve_path_type d.top_level_paths d.has_directory d.has_file;
      }),
)

abbrev no_drop : Files → Drop
no_drop s = record {
  store = s;
  top_level_paths = [];
  has_directory = false;
  has_file = false;
  is_rejected = false;
}

abbrev processed : ℕ → List Item → List WebFile → Files → Files × Option WebDropResult
processed n [] fs s = dropped_files (register_plain_files fs s)
processed n (i ∷ is) fs s = drop_result (drop_items n (i ∷ is) (no_drop s))

-- `processWebDataTransfer`, on fuel for the depth of the folders; `none` where it is rejected.
unfoldable pub process_web_data_transfer : ℕ → DataTransfer → Files → Files × Option WebDropResult
unfolding register_plain_files drop_items resolve_path_type
process_web_data_transfer n transfer s = processed n transfer.items transfer.files s
