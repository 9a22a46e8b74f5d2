-- ===== src/Sender/Controls.antt =====
-- frontend/src/hooks/useSender.ts: the handlers of the user's actions, and what they do after each
-- `await`. A message of the interface is `t` of its key.
use alt_sendme.Prelude.{
  Bool, true, false, not, ◌&&◌, Text, codes, Option, none, some, List, [], ◌∷◌, ◌++◌, leb, length,
  is_truthy, is_empty, is_some, trim, if◌then◌else◌,
}
use alt_sendme.Transfer.{Numbers, or_number, PathType, AlertType, TransferMetadata, Failure}
use alt_sendme.Sender.Store.{
  idle, sharing, finished, set_view_state, set_ticket, set_selected_paths, add_selected_paths,
  remove_selected_path, set_path_type, set_transfer_metadata, set_transfer_progress, set_is_loading,
  set_copy_success, set_is_broadcast_mode, set_active_connection_count, show_alert, reset_to_idle,
  reset_for_broadcast,
}
use alt_sendme.Sender.Hook.{
  send_items, stop_request, check_path_type, clipboard_write, copy_reset, Session, is_transporting,
  is_finished, file_name_of, text_of, stopped, on_store, await, clear_interval, clear_transfer,
}

-- `isWebPreviewError(error) ? getWebPreviewErrorMessage(error, fallback) : other`
-- (frontend/src/lib/web-preview-error.ts)
abbrev preview_or : Option Text → Text → Text → Text
preview_or none fallback other = other
preview_or (some message) fallback other =
    let trimmed = trim message in if is_empty trimmed then fallback else trimmed

unfoldable pub error_text : Failure → Text → Text → Text
unfolding trim
error_text error fallback other = preview_or error.preview_message fallback other

-- `${a}: ${b}`
abbrev pub with_colon : Text → Text → Text
with_colon a b = a ++ codes ": " ++ b

module _ {N : Type 0} where
  -- The end of `removeSelectedPath`, on the paths that remain.
  abbrev pub retype : List Text → Session N → Session N
  retype [] m = on_store (set_path_type none) m
  retype (p ∷ []) m = await (check_path_type p) m
  retype (p ∷ q ∷ ps) m = on_store (set_path_type none) m

module _ {N : Type 0} (num : Numbers N) (t : Text → Text) where
  -- `invoke('check_path_type', { path: paths[0] })`
  abbrev ask_type : List Text → Session N → Session N
  ask_type [] m = m
  ask_type (p ∷ ps) m = await (check_path_type p) m

  -- `handleFilesSelect`; `handleFileSelect` gives it one path
  unfoldable pub select_files : List Text → Option PathType → Session N → Session N
  unfolding add_selected_paths set_path_type
  select_files paths provided m =
      let added = on_store (add_selected_paths paths) m in
      if leb (length paths) 0
      then m
      else (if leb 2 (length added.store.selected_paths)
          then on_store (set_path_type none) added
          else if is_some provided
          then on_store (set_path_type provided) added
          else if is_some m.path_type_ref
          then added
          else ask_type paths added)

  -- `clearSelectedPath`
  unfoldable pub clear_selected : Session N → Session N
  unfolding set_selected_paths set_path_type
  clear_selected m = on_store (λ s. set_path_type none (set_selected_paths [] s)) m

  unfoldable pub remove_path : Text → Session N → Session N
  unfolding remove_selected_path set_path_type
  remove_path path m =
      let removed = on_store (remove_selected_path path) m in
      retype removed.store.selected_paths removed

  -- `check_path_type` has answered
  unfoldable pub resolve_type : Option PathType → Session N → Session N
  unfolding set_path_type
  resolve_type answer m = on_store (set_path_type answer) m

  -- `startSharing`, up to its `await`
  unfoldable pub start_sharing : Session N → Session N
  unfolding set_view_state set_transfer_metadata set_transfer_progress set_active_connection_count
      set_is_loading
  start_sharing m =
      let reset = record (clear_transfer m) {
        was_manually_stopped = false;
        store = set_is_loading true (
            set_active_connection_count num.zero (
              set_transfer_progress none
                (set_transfer_metadata none (set_view_state idle m.store))));
      } in
      if leb (length m.rendered.selected_paths) 0
      then m
      else await (send_items m.rendered.selected_paths) reset

  -- `send_items` has given a ticket
  unfoldable pub share : Text → Session N → Session N
  unfolding set_ticket set_view_state set_is_loading
  share ticket m =
      on_store (λ s. set_is_loading false (set_view_state sharing (set_ticket (some ticket) s))) m

  -- `send_items` has failed
  unfoldable pub fail_share : Failure → Session N → Session N
  unfolding show_alert set_is_loading error_text
  fail_share error m =
      on_store
        (λ s. set_is_loading false (
          show_alert (t (codes "common:errors.sharingFailed"))
            (error_text error (t (codes "common:webPreview.transferUnavailable"))
              (with_colon (t (codes "common:errors.sharingFailedDesc")) error.text))
            AlertType.error s))
        m

  abbrev pub was_active : Session N → Bool
  was_active m =
      is_transporting m.rendered.view_state
      && not (stopped (λ (d : TransferMetadata N). d.was_stopped) m.rendered.transfer_metadata)

  -- The metadata of a transfer that the user has stopped.
  abbrev pub stopped_metadata : N → Session N → TransferMetadata N
  stopped_metadata now m = record {
    file_name = file_name_of (text_of m.selected_path_ref);
    file_size = num.zero;
    duration = num.zero;
    start_time = or_number num.truthy m.transfer_start_time now;
    end_time = now;
    download_path = none;
    was_stopped = true;
    path_type = m.path_type_ref;
    item_count = some (length m.store.selected_paths);
  }

  -- `stopSharing` on an active transfer
  unfoldable pub stop_transfer : N → Session N → Session N
  unfolding reset_for_broadcast set_transfer_metadata set_view_state
  stop_transfer now m =
      let quiet = clear_transfer (clear_interval (record m { was_manually_stopped = true })) in
      if m.store.is_broadcast_mode
      then on_store (reset_for_broadcast num.zero) quiet
      else on_store
          (λ s. set_view_state finished (set_transfer_metadata (some (stopped_metadata now m)) s))
          quiet

  -- `resetToIdle`, with the refs
  unfoldable pub go_idle : Session N → Session N
  unfolding reset_to_idle
  go_idle m =
      on_store (reset_to_idle num.zero) (clear_transfer (record m { was_manually_stopped = false }))

  -- `stopSharing`, up to its `await`; `resetForNewTransfer` is the same
  unfoldable pub stop_sharing : N → Session N → Session N
  unfolding set_is_broadcast_mode stop_transfer go_idle
  stop_sharing now m =
      let direct_mode = on_store (set_is_broadcast_mode false) m in
      let active = was_active m && is_truthy m.selected_path_ref in
      let halted = if active then stop_transfer now direct_mode else direct_mode in
      if is_finished m.rendered.view_state && is_some m.rendered.transfer_metadata
      then go_idle halted
      else await (stop_request (not active)) halted

  -- `stop_sharing` has answered
  unfoldable pub finish_stop : Bool → Session N → Session N
  unfolding go_idle set_active_connection_count set_ticket set_selected_paths set_path_type
      set_transfer_progress
  finish_stop true m = go_idle (on_store (set_active_connection_count num.zero) m)
  finish_stop false m = clear_transfer (
      on_store
        (λ s.
          set_transfer_progress none
            (set_path_type none (set_selected_paths [] (set_ticket none s))))
        m)

  unfoldable pub fail_stop : Failure → Session N → Session N
  unfolding show_alert
  fail_stop error m =
      on_store
        (show_alert (t (codes "common:errors.stopSharingFailed"))
          (with_colon (t (codes "common:errors.stopSharingFailedDesc")) error.text) AlertType.error)
        m

  -- `copyTicket`
  unfoldable pub copy_ticket : Session N → Session N
  copy_ticket m = if is_truthy m.rendered.ticket then await clipboard_write m else m

  unfoldable pub copied : Session N → Session N
  unfolding set_copy_success
  copied m = await copy_reset (on_store (set_copy_success true) m)

  unfoldable pub fail_copy : Failure → Session N → Session N
  unfolding show_alert
  fail_copy error m =
      on_store
        (show_alert (t (codes "common:errors.copyFailed"))
          (with_colon (t (codes "common:errors.copyFailedDesc")) error.text) AlertType.error)
        m
