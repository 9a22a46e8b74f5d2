-- ===== src/Bridge/Stub.antt =====
-- frontend/src/lib/platform-api.ts, invokeWebStub: the calls that the browser answers without the engine.
use alt_sendme.Prelude.{
  ℕ, ◌+◌, codes, Bool, false, Text, Option, none, some, List, [], ◌∷◌, length, last_or, or_else,
  map, is_empty, ◌==◌, ◌⊎◌, inl, inr, if◌then◌else◌,
}
use alt_sendme.Transfer.{PathType, file, directory}
use alt_sendme.Web.Files.{
  WebFile, Files, get_web_file, is_web_directory, list_web_file_entries_under_path,
}
use alt_sendme.Bridge.Engine.{Browser, CallError, not_in_preview, get_web_sharing_ticket}

-- The texts that `receive_file` gives.
pub data Message : Type 0 where
  downloaded_one : Text → Message
  downloaded_zip downloaded_many : ℕ → Message

-- What a call gives; `V` as for the engine.
pub data Value (V : Type 0) : Type 0 where
  null_value undefined_value : Value V
  text : Text → Value V
  number : ℕ → Value V
  boolean : Bool → Value V
  path_type : PathType → Value V
  mime_types : List (Option Text) → Value V
  devices_none : Value V
  -- the node's status: unavailable, for the reason `desktop_only`
  desktop_only : Value V
  message : Message → Value V
  of_engine : V → Value V

pub data StubCommand : Type 0 where
  check_launch_intent get_sharing_status get_node_status get_device_info : StubCommand
  set_device_display_name get_pairing_ticket list_paired_devices start_pairing_host : StubCommand
  join_pairing forget_paired_device rename_paired_device invite_paired_device : StubCommand
  stop_pairing_host reconfigure_node_relay toggle_context_menu select_send_document : StubCommand
  select_send_folder consume_share_intent cancel_job open_download_folder : StubCommand
  is_windows_portable : StubCommand
  check_path_type get_file_size : Option Text → StubCommand
  get_paths_mime_types : Option (List Text) → StubCommand
  -- any other name
  unhandled : Text → StubCommand

abbrev ends_with_slash : Text → Bool
ends_with_slash path = last_or path 0 == b'/'

abbrev type_by_name : Text → Option WebFile → PathType
type_by_name path (some f) = file
type_by_name path none = if ends_with_slash path then directory else file

unfoldable pub path_type_of : Files → Text → PathType
unfolding is_web_directory get_web_file
path_type_of s path =
    if is_web_directory s path then directory else type_by_name path (get_web_file s path)

abbrev type_of_file : Option WebFile → Option Text
type_of_file none = none
type_of_file (some f) = if is_empty f.type then none else some f.type

unfoldable pub mime_type_of : Files → Text → Option Text
unfolding is_web_directory get_web_file
mime_type_of s path =
    if is_web_directory s path
    then some (codes "inode/directory")
    else type_of_file (get_web_file s path)

-- `file.size` of the entries, summed up by `reduce`
abbrev pub sum_sizes : ℕ → List (Text × WebFile) → ℕ
sum_sizes total [] = total
sum_sizes total ((path, f) ∷ entries) = sum_sizes (total + length f.bytes) entries

abbrev size_of : Option WebFile → ℕ → ℕ
size_of none other = other
size_of (some f) other = length f.bytes

unfoldable pub file_size_of : Files → Text → ℕ
unfolding is_web_directory get_web_file list_web_file_entries_under_path
file_size_of s path =
    size_of (get_web_file s path)
      (if is_web_directory s path then sum_sizes 0 (list_web_file_entries_under_path s path) else 0)

abbrev text_or_null : {V : Type 0} → Option Text → Value V
text_or_null none = null_value
text_or_null (some t) = text t

module _ {D V : Type 0} where
  -- `invokeWebStub`
  unfoldable pub invoke_web_stub : StubCommand → Browser D → CallError ⊎ Value V
  unfolding path_type_of mime_type_of file_size_of get_web_sharing_ticket
  invoke_web_stub (check_path_type path) b =
      inr (path_type (path_type_of b.files (or_else path [])))
  invoke_web_stub (get_paths_mime_types paths) b =
      inr (mime_types (map (mime_type_of b.files) (or_else paths [])))
  invoke_web_stub (get_file_size path) b = inr (number (file_size_of b.files (or_else path [])))
  invoke_web_stub get_sharing_status b = inr (text_or_null (get_web_sharing_ticket b))
  invoke_web_stub get_node_status b = inr desktop_only
  invoke_web_stub list_paired_devices b = inr devices_none
  invoke_web_stub start_pairing_host b = inr undefined_value
  invoke_web_stub join_pairing b = inr undefined_value
  invoke_web_stub forget_paired_device b = inr undefined_value
  invoke_web_stub rename_paired_device b = inr undefined_value
  invoke_web_stub invite_paired_device b = inr undefined_value
  invoke_web_stub stop_pairing_host b = inr undefined_value
  invoke_web_stub reconfigure_node_relay b = inr undefined_value
  invoke_web_stub is_windows_portable b = inr (boolean false)
  invoke_web_stub (unhandled name) b = inl not_in_preview
  invoke_web_stub _ b = inr null_value
