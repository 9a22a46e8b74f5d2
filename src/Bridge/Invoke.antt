-- ===== src/Bridge/Invoke.antt =====
-- frontend/src/lib/platform-api.ts, invokeWeb: the calls that the engine answers, and the rest. What the
-- code awaits within a call is done at once.
use alt_sendme.Prelude.{
  ℕ, Bool, true, Text, Option, none, some, List, [], ◌∷◌, any, length, trim, is_empty, or_else, ◌⊎◌,
  inl, inr, if◌then◌else◌,
}
use alt_sendme.Save.Names.{WriteConflict}
use alt_sendme.Save.Folder.{FileSystem, ReceivedWebFile}
use alt_sendme.Save.Location.{
  DirectoryHandle, World, WriteCollectionResult, write_received_collection,
}
use alt_sendme.Web.Send.{WebSendEntryType, Payload, SendError, collect_web_send_payload}
use alt_sendme.Bridge.Engine.{
  Engine, receive_conflicts, receive_completed, Browser, CallError, transfer_unavailable,
  ticket_required, no_file_selected, incomplete, relay_required, save_failed, not_sent,
  engine_failed, dispatch_web_event, wasm_send_items, wasm_stop_sharing,
}
use alt_sendme.Bridge.Stub.{
  Message, downloaded_one, downloaded_zip, downloaded_many, Value, undefined_value, text, message,
  of_engine, StubCommand, invoke_web_stub,
}

-- A call with its arguments, which may be missing.
pub data Command (R : Type 0) : Type 0 where
  fetch_ticket_metadata receive_file : Option Text → Option R → Command R
  send_items : Option (List Text) → Option R → Command R
  start_sharing : Option Text → Option R → Command R
  stop_sharing : Command R
  verify_relays get_relay_status : Option R → Command R
  stub : StubCommand → Command R

-- The received files by their names and contents; `none` where they are not as many.
unfoldable pub zip_files : List Text → List (List ℕ) → Option (List ReceivedWebFile)
zip_files [] [] = some []
zip_files [] (b ∷ bs) = none
zip_files (n ∷ ns) [] = none
zip_files (n ∷ ns) (b ∷ bs) = elim (zip_files ns bs) [
  | none ↦ none
  | some files ↦ some (record { name = n; bytes = b } ∷ files)
]

abbrev pub Called : Type 0 → Type 0 → Type 0
Called D V = Browser D × (CallError ⊎ Value V)

-- `invokeWebTransfer` where paths are sent
abbrev pub sent : {D V : Type 0} → Browser D × (CallError ⊎ Text) → Called D V
sent (b, inl error) = (b, inl error)
sent (b, inr ticket) = (b, inr (text ticket))

abbrev pub send_payload :
    {D R V : Type 0}
    → Engine R V
    → Option R
    → Browser D
    → SendError ⊎ (Payload × WebSendEntryType)
    → Called D V
send_payload engine relay b (inl error) = (b, inl (not_sent error))
send_payload engine relay b (inr (payload, type)) =
    sent (wasm_send_items (engine.send_items payload type relay) b)

abbrev no_paths : List Text → Bool
no_paths [] = true
no_paths (path ∷ paths) = any is_empty (path ∷ paths)

unfoldable pub send_paths :
    {D R V : Type 0} → Engine R V → List Text → Option R → Browser D → Called D V
unfolding collect_web_send_payload wasm_send_items
send_paths engine paths relay b =
    if no_paths paths
    then (b, inl no_file_selected)
    else send_payload engine relay b (collect_web_send_payload b.files paths)

abbrev pub of_value : {V : Type 0} → Option V → CallError ⊎ Value V
of_value none = inl engine_failed
of_value (some v) = inr (of_engine v)

unfoldable pub fetch_metadata : {R V : Type 0} → Engine R V → Text → Option R → CallError ⊎ Value V
unfolding trim
fetch_metadata engine ticket relay =
    if is_empty (trim ticket)
    then inl ticket_required
    else of_value (engine.fetch_ticket_metadata (trim ticket) relay)

abbrev pub verify : {R V : Type 0} → Engine R V → Option R → CallError ⊎ Value V
verify engine none = inl relay_required
verify engine (some relay) = of_value (engine.verify_relays relay)

abbrev message_of : List ReceivedWebFile → Bool → Message
message_of [] zipped = if zipped then downloaded_zip 0 else downloaded_many 0
message_of (f ∷ []) zipped = downloaded_one f.name
message_of (f ∷ g ∷ files) zipped =
    if zipped
    then downloaded_zip (length (f ∷ g ∷ files))
    else downloaded_many (length (f ∷ g ∷ files))

abbrev pub tell_conflicts : {D : Type 0} → List WriteConflict → Browser D → Browser D
tell_conflicts [] b = b
tell_conflicts (c ∷ conflicts) b = dispatch_web_event (receive_conflicts (c ∷ conflicts)) b

-- `writeReceivedCollection` has ended.
unfoldable pub finish_receive :
    {D V : Type 0}
    → List ReceivedWebFile
    → World D × Option WriteCollectionResult
    → Browser D
    → Called D V
unfolding dispatch_web_event
finish_receive files (w, none) b = (record b { world = w }, inl save_failed)
finish_receive files (w, some result) b = (
  dispatch_web_event receive_completed (tell_conflicts result.conflicts (record b { world = w })),
  inr (message (message_of files result.zipped_download)),
)

module _ {D : Type 0} (fs : FileSystem D) (encode : Text → List ℕ)
    (cached : Option DirectoryHandle) where
  abbrev pub save : {V : Type 0} → Browser D → Option (List ReceivedWebFile) → Called D V
  save b none = (b, inl incomplete)
  save b (some files) =
      finish_receive files (write_received_collection fs encode cached files b.world) b

  abbrev pub save_received :
      {V : Type 0} → Browser D → Option (List Text × List (List ℕ)) → Called D V
  save_received b none = (b, inl engine_failed)
  save_received b (some (names, contents)) = save b (zip_files names contents)

  unfoldable pub receive : {R V : Type 0} → Engine R V → Text → Option R → Browser D → Called D V
  unfolding trim zip_files finish_receive write_received_collection
  receive engine ticket relay b =
      if is_empty (trim ticket)
      then (b, inl ticket_required)
      else save_received b (engine.receive_file (trim ticket) relay)

  -- `invokeWebTransfer`
  unfoldable pub invoke_web_transfer :
      {R V : Type 0} → Engine R V → Command R → Browser D → Called D V
  unfolding send_paths fetch_metadata receive wasm_stop_sharing invoke_web_stub
  invoke_web_transfer engine (fetch_ticket_metadata ticket relay) b =
      (b, fetch_metadata engine (or_else ticket []) relay)
  invoke_web_transfer engine (send_items paths relay) b =
      send_paths engine (or_else paths []) relay b
  invoke_web_transfer engine (start_sharing path relay) b =
      send_paths engine (or_else path [] ∷ []) relay b
  invoke_web_transfer engine (receive_file ticket relay) b =
      receive engine (or_else ticket []) relay b
  invoke_web_transfer engine stop_sharing b = (wasm_stop_sharing b, inr undefined_value)
  invoke_web_transfer engine (verify_relays relay) b = (b, verify engine relay)
  invoke_web_transfer engine (get_relay_status relay) b =
      (b, of_value (engine.get_relay_status relay))
  invoke_web_transfer engine (stub command) b = (b, invoke_web_stub command b)

  -- `invokeWeb`
  unfoldable pub invoke_web : {R V : Type 0} → Engine R V → Command R → Browser D → Called D V
  unfolding invoke_web_transfer invoke_web_stub
  invoke_web engine (stub command) b = (b, invoke_web_stub command b)
  invoke_web engine command b =
      if engine.is_loaded
      then invoke_web_transfer engine command b
      else (b, inl transfer_unavailable)
