-- ===== src/Web/Send.antt =====
-- frontend/src/lib/web-send-items.ts: the names and contents that a selection sends. What is told of it
-- beside, as text for the engine, is in Web.Preview.
use alt_sendme.Prelude.{
  ℕ, Text, Option, none, some, List, [], ◌∷◌, ◌++◌, length, leb, if◌then◌else◌, ◌⊎◌, inl, inr,
}
use alt_sendme.Web.Files.{
  WebFile, Files, get_web_file, is_web_directory, list_web_file_entries_under_path,
}

pub data WebSendEntryType : Type 0 where
  file : WebSendEntryType
  directory : WebSendEntryType
  collection : WebSendEntryType

unfoldable pub web_send_entry_type : Files → List Text → WebSendEntryType
unfolding is_web_directory
web_send_entry_type s [] = file
web_send_entry_type s (path ∷ []) = if is_web_directory s path then directory else file
web_send_entry_type s (path ∷ other ∷ paths) = collection

-- The errors that are thrown.
pub data SendError : Type 0 where
  folder_without_files : Text → SendError
  file_not_available : SendError
  no_files_selected : SendError

pub record Payload : Type 0 where
  pub names : List Text
  pub bytes_list : List (List ℕ)

abbrev pub entries_of_folder : Text → List (Text × WebFile) → SendError ⊎ List (Text × WebFile)
entries_of_folder path [] = inl (folder_without_files path)
entries_of_folder path (entry ∷ entries) = inr (entry ∷ entries)

abbrev pub entries_of_file : Text → Option WebFile → SendError ⊎ List (Text × WebFile)
entries_of_file path none = inl file_not_available
entries_of_file path (some f) = inr ((path, f) ∷ [])

-- What one path of the selection adds.
unfoldable pub entries_of : Files → Text → SendError ⊎ List (Text × WebFile)
unfolding is_web_directory get_web_file list_web_file_entries_under_path
entries_of s path =
    if is_web_directory s path
    then entries_of_folder path (list_web_file_entries_under_path s path)
    else entries_of_file path (get_web_file s path)

abbrev pub push_entries : Payload → List (Text × WebFile) → Payload
push_entries p [] = p
push_entries p ((path, f) ∷ entries) =
    push_entries
      (record { names = p.names ++ path ∷ []; bytes_list = p.bytes_list ++ f.bytes ∷ [] }) entries

-- The loop over the paths.
unfoldable pub collect_from : Files → Payload → List Text → SendError ⊎ Payload
unfolding entries_of
collect_from s p [] = inr p
collect_from s p (path ∷ paths) = elim (entries_of s path) [
  | inl error ↦ inl error
  | inr entries ↦ collect_from s (push_entries p entries) paths
]

abbrev pub checked :
    WebSendEntryType → SendError ⊎ Payload → SendError ⊎ (Payload × WebSendEntryType)
checked type (inl error) = inl error
checked type (inr p) = if leb (length p.names) 0 then inl no_files_selected else inr (p, type)

unfoldable pub collect_web_send_payload :
    Files → List Text → SendError ⊎ (Payload × WebSendEntryType)
unfolding collect_from web_send_entry_type
collect_web_send_payload s paths =
    checked (web_send_entry_type s paths)
      (collect_from s (record { names = []; bytes_list = [] }) paths)
