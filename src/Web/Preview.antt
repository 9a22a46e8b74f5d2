-- ===== src/Web/Preview.antt =====
-- frontend/src/lib/web-send-metadata.ts: what is told of a selection beside its content. The text that
-- `JSON.stringify` makes of it is left out, and so is `thumbnail`, which is always null;
-- `localeCompare` is a parameter.
use Prim.Native.Nat.{Ordering}
use alt_sendme.Prelude.{
  ℕ, ◌+◌, Text, codes, Option, none, some, List, [], ◌∷◌, map, length, if◌then◌else◌, ◌⊎◌, inl, inr,
}
use alt_sendme.Sorting.{sort}
use alt_sendme.Web.Files.{
  WebFile, Files, get_web_file, is_web_directory, list_web_file_entries_under_path,
}
use alt_sendme.Web.Metadata.{basename, dedup_name}

-- `WebFilePreviewItem`
pub record PreviewItem : Type 0 where
  pub file_name : Text
  pub size : ℕ
  pub mime_type : Text

-- `WebFileMetadata`
pub record Metadata : Type 0 where
  pub file_name : Text
  pub item_count : ℕ
  pub size : ℕ
  pub mime_type : Text
  pub items : Option (List PreviewItem)

pub data MetadataError : Type 0 where
  no_paths : MetadataError
  file_gone : MetadataError

abbrev or_octets : Text → Text
or_octets [] = codes "application/octet-stream"
or_octets (c ∷ type) = c ∷ type

abbrev pub web_mime_type : WebFile → Text
web_mime_type file = or_octets file.type

abbrev pub directory_type : Text
directory_type = codes "inode/directory"

-- `file.size`
abbrev pub file_size : WebFile → ℕ
file_size file = length file.bytes

-- `listWebFilesUnderPath`
abbrev pub list_web_files_under_path : Files → Text → List WebFile
list_web_files_under_path s path = map (λ entry. entry.1) (list_web_file_entries_under_path s path)

-- The sizes of files, added to a total.
abbrev pub add_sizes : ℕ → List WebFile → ℕ
add_sizes total [] = total
add_sizes total (file ∷ files) = add_sizes (total + file_size file) files

abbrev pub file_details : Option WebFile → Option (ℕ × Text)
file_details none = none
file_details (some file) = some (file_size file, web_mime_type file)

-- The size and the type of the item of a path; `none` where it is skipped.
unfoldable pub item_details : Files → Text → Option (ℕ × Text)
unfolding is_web_directory get_web_file list_web_file_entries_under_path
item_details s path =
    if is_web_directory s path
    then some (add_sizes 0 (list_web_files_under_path s path), directory_type)
    else file_details (get_web_file s path)

-- The loop of `buildPreviewItems`.
unfoldable pub preview_from : Files → List (Text × ℕ) → List Text → List PreviewItem
unfolding item_details basename dedup_name
preview_from s seen [] = []
preview_from s seen (path ∷ paths) = elim (item_details s path) [
  | none ↦ preview_from s seen paths
  | some details ↦
      record {
        file_name = (dedup_name (basename path) seen).0;
        size = details.0;
        mime_type = details.1;
      }
      ∷ preview_from s (dedup_name (basename path) seen).1 paths
]

-- The size that a path adds to the total.
abbrev pub size_or_none : Option WebFile → ℕ
size_or_none none = 0
size_or_none (some file) = file_size file

unfoldable pub total_size_from : Files → ℕ → List Text → ℕ
unfolding is_web_directory get_web_file list_web_file_entries_under_path
total_size_from s total [] = total
total_size_from s total (path ∷ paths) =
    total_size_from s
      (if is_web_directory s path
        then add_sizes total (list_web_files_under_path s path)
        else total + size_or_none (get_web_file s path))
      paths

unfoldable pub total_size_for_paths : Files → List Text → ℕ
unfolding total_size_from
total_size_for_paths s paths = total_size_from s 0 paths

abbrev pub build_web_send_metadata_for_file : WebFile → Metadata
build_web_send_metadata_for_file file = record {
  file_name = file.name;
  item_count = 1;
  size = file_size file;
  mime_type = web_mime_type file;
  items = none;
}

abbrev pub metadata_of_file : Option WebFile → MetadataError ⊎ Metadata
metadata_of_file none = inl file_gone
metadata_of_file (some file) = inr (build_web_send_metadata_for_file file)

module _ (locale_compare : Text → Text → Ordering) where
  abbrev pub by_file_name : PreviewItem → PreviewItem → Ordering
  by_file_name a b = locale_compare a.file_name b.file_name

  unfoldable pub build_preview_items : Files → List Text → List PreviewItem
  unfolding preview_from
  build_preview_items s paths = sort by_file_name (preview_from s [] paths)

  unfoldable pub build_web_send_metadata_for_paths : Files → List Text → MetadataError ⊎ Metadata
  unfolding basename total_size_for_paths build_preview_items is_web_directory get_web_file
  build_web_send_metadata_for_paths s [] = inl no_paths
  build_web_send_metadata_for_paths s (path ∷ []) =
      if is_web_directory s path
      then inr (record {
        file_name = basename path;
        item_count = 1;
        size = total_size_for_paths s (path ∷ []);
        mime_type = directory_type;
        items = none;
      })
      else metadata_of_file (get_web_file s path)
  build_web_send_metadata_for_paths s (path ∷ other ∷ paths) = inr (record {
    file_name = basename path;
    item_count = length (build_preview_items s (path ∷ other ∷ paths));
    size = total_size_for_paths s (path ∷ other ∷ paths);
    mime_type = codes "application/x-iroh-collection";
    items = some (build_preview_items s (path ∷ other ∷ paths));
  })
