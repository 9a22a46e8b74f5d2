-- ===== src/Bridge/Sharing.antt =====
-- frontend/src/lib/platform-api.ts: what is shared of a dropped file, until it is stopped.
use alt_sendme.Prelude.{
  ℕ, ◌≡◌, refl, ◌∙◌, true, false, Text, text_eq_refl, is_empty, Option, none, some, List, [], ◌∷◌,
  inr, arith, get-put,
}
use alt_sendme.Transfer.{PathType}
use alt_sendme.Save.Folder.{FileSystem}
use alt_sendme.Save.Location.{DirectoryHandle}
use alt_sendme.Web.Files.{
  WebFile, Files, register_web_file, get_web_file, is_web_directory, web_file_path_key,
}
use alt_sendme.Web.Registered.{contains-without}
use alt_sendme.Web.Entries.{file_entry}
use alt_sendme.Web.Drop.{
  entry_item, WebDropResult, process_web_data_transfer, drop_file, resolve_path_type,
}
use alt_sendme.Web.Send.{WebSendEntryType, Payload, collect_web_send_payload, web_send_entry_type}
use alt_sendme.Web.Chosen.{collect_web_send_payload-chosen}
use alt_sendme.Bridge.Engine.{
  Engine, Browser, wasm_send_items, wasm_stop_sharing, get_web_sharing_ticket,
}
use alt_sendme.Bridge.Stub.{text, null_value, get_sharing_status, invoke_web_stub}
use alt_sendme.Bridge.Invoke.{
  send_items, stop_sharing, stub, send_paths, invoke_web, invoke_web_transfer,
}

-- The store once `f` is dropped.
abbrev pub with_file : WebFile → Files → Files
with_file f s = register_web_file (web_file_path_key f) f s

with_file-get :
    (f : WebFile) (s : Files) → get_web_file (with_file f s) (web_file_path_key f) ≡ some f
unfolding register_web_file get_web_file
with_file-get f s =
    get-put (web_file_path_key f) (web_file_path_key f) f s.files_by_path
    ∙ rw (text_eq_refl (web_file_path_key f)) refl

with_file-file :
    (f : WebFile) (s : Files) → is_web_directory (with_file f s) (web_file_path_key f) ≡ false
unfolding register_web_file is_web_directory
with_file-file f s =
    contains-without (web_file_path_key f) (web_file_path_key f) s.directory_paths
    ∙ ground (arith, text_eq_refl (web_file_path_key f))

process-file :
    (n : ℕ) (name : Text) (f : WebFile) (s : Files)
    → process_web_data_transfer n
        (record { items = entry_item (file_entry name (some f)) ∷ []; files = [] })
        s
      ≡ (
        with_file f s,
        some (record { paths = web_file_path_key f ∷ []; path_type = some PathType.file }),
      )
unfolding process_web_data_transfer drop_file resolve_path_type
process-file n name f s = refl

collect-file :
    (f : WebFile) (s : Files)
    → collect_web_send_payload (with_file f s) (web_file_path_key f ∷ [])
      ≡ inr (
        record { names = web_file_path_key f ∷ []; bytes_list = f.bytes ∷ [] },
        WebSendEntryType.file,
      )
unfolding web_send_entry_type
collect-file f s =
    collect_web_send_payload-chosen (with_file f s) (web_file_path_key f, f) []
      ((with_file-file f s, with_file-get f s), tt)
    ∙ rw (with_file-file f s) refl

abbrev pub paths_of : Option WebDropResult → Option (List Text)
paths_of none = none
paths_of (some r) = some r.paths

abbrev pub payload_of : WebFile → Payload
payload_of f = record { names = web_file_path_key f ∷ []; bytes_list = f.bytes ∷ [] }

module _ {D R V : Type 0} (fs : FileSystem D) (encode : Text → List ℕ)
    (cached : Option DirectoryHandle) (engine : Engine R V) (relay : Option R) where
  send_file :
      (f : WebFile) (b : Browser D) (ticket : Text)
      → is_empty (web_file_path_key f) ≡ false
      → engine.send_items (payload_of f) WebSendEntryType.file relay ≡ some ticket
      → let c = record b { files = with_file f b.files } in
        send_paths engine (web_file_path_key f ∷ []) relay c
        ≡ (record c { current_ticket = some ticket }, inr (text ticket))
  unfolding send_paths wasm_send_items
  send_file f b ticket h e = rw (h, collect-file f b.files, e) refl

  -- A file that is dropped and shared: if its path is not empty, and the engine is loaded and gives a
  -- ticket for the one name and content of that file, then `send_items` for the path that the drop
  -- gives gives that ticket, `get_sharing_status` then gives it too, and after `stop_sharing` it
  -- gives null. It does not matter what was chosen or shared before.
  pub dropped_file-shared :
      (n : ℕ) (name : Text) (f : WebFile) (b : Browser D) (ticket : Text)
      → is_empty (web_file_path_key f) ≡ false
      → engine.is_loaded ≡ true
      → engine.send_items (payload_of f) WebSendEntryType.file relay ≡ some ticket
      → let dropped =
          process_web_data_transfer n
            (record { items = entry_item (file_entry name (some f)) ∷ []; files = [] })
            b.files in
        let call = invoke_web fs encode cached engine in
        let shared =
          call (send_items (paths_of dropped.1) relay) (record b { files = dropped.0 }) in
        let stopped = call stop_sharing shared.0 in
        (shared.1 ≡ inr (text ticket))
        × ((call (stub get_sharing_status) shared.0).1 ≡ inr (text ticket))
        × ((call (stub get_sharing_status) stopped.0).1 ≡ inr null_value)
  unfolding invoke_web invoke_web_transfer invoke_web_stub wasm_stop_sharing get_web_sharing_ticket
  dropped_file-shared n name f b ticket h l e =
      rw (process-file n name f b.files, l, send_file f b ticket h e) (refl, refl, refl)
