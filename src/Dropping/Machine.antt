-- ===== src/Dropping/Machine.antt =====
-- frontend/src/hooks/useDragDrop.ts as a state machine. It begins when the component is mounted, and
-- the component stays mounted.
use alt_sendme.Prelude.{
  ℕ, Bool, true, false, Text, codes, Option, none, some, List, [], ◌∷◌, ◌++◌, remove_at, get_elem?,
  if◌then◌else◌,
}
use alt_sendme.Transfer.{PathType, file, directory, error, closed_alert}
use alt_sendme.Dropping.State.{
  Platform, web, desktop, android, CopySource, document, folder, share, Task, checking, selecting,
  reading_drop, opening_files, opening_folder, starting, cancelling, DropZone, is_android,
  show_alert, close_alert, check_path_type, trigger_files_select, reset_copy, copy_started,
  copy_completed, after_cancel, cancel_copy, set_up_shares, retry_share, share_received,
  browse_file, browse_folder, web_drag_enter, web_drag_leave, web_drop, window_drop,
}

-- What a dialog gives.
pub data Picked : Type 0 where
  nothing_picked : Picked
  one_path : Text → Picked
  paths_picked : List Text → Picked

-- How a task ends; an error comes as its text.
pub data Reply : Type 0 where
  finished : Reply
  failed : Text → Reply
  checked : PathType → Reply
  picked : Picked → Reply
  dropped : List Text → Option PathType → Reply
  -- the handler of a copy, if there is one
  started : Option ℕ → Reply

pub data Event : Type 0 where
  -- the browser, where it runs there
  drag_entered drag_left dropped_items : Event
  -- the window's events, where it does not
  window_dropped : List Text → Event
  window_hovered window_left : Event
  -- the callbacks of a copy, and the effect of the shares, on Android
  copy_begins : Text → ℕ → Event
  copy_goes_on : ℕ → Event
  copy_ends : Text → CopySource → Event
  copy_fails : Text → Event
  shares_set_up shared retried : Event
  -- the user and the component
  browsed_file browsed_folder cancelled toggled closed_dialog : Event
  check : Option PathType → Event
  reply : ℕ → Reply → Event

abbrev file_dialog_failed : Text
file_dialog_failed = codes "common:errors.fileDialogFailed"

abbrev folder_dialog_failed : Text
folder_dialog_failed = codes "common:errors.folderDialogFailed"

abbrev description_of : Text
description_of = codes "Desc"

abbrev pub on_web : Platform → (DropZone → DropZone) → DropZone → DropZone
on_web web f d = f d
on_web desktop f d = d
on_web android f d = d

abbrev pub on_tauri : Platform → (DropZone → DropZone) → DropZone → DropZone
on_tauri web f d = d
on_tauri desktop f d = f d
on_tauri android f d = f d

abbrev pub on_android : Platform → (DropZone → DropZone) → DropZone → DropZone
on_android platform f d = if is_android platform then f d else d

module _ (t : Text → Text) where
  -- `${t(key + 'Desc')}: ${error}`
  abbrev alert : Text → Text → DropZone → DropZone
  alert key text d = show_alert (t key) (t (key ++ description_of) ++ (codes ": " ++ text)) error d

  abbrev alert_start : CopySource → Text → DropZone → DropZone
  alert_start folder text d = alert folder_dialog_failed text d
  alert_start document text d = alert file_dialog_failed text d
  alert_start share text d = alert file_dialog_failed text d

  abbrev pub select_files : Picked → DropZone → DropZone
  select_files nothing_picked d = d
  select_files (one_path []) d = d
  select_files (one_path (c ∷ path)) d = trigger_files_select ((c ∷ path) ∷ []) (some file) d
  select_files (paths_picked paths) d = trigger_files_select paths (some file) d

  abbrev pub select_folder : Picked → DropZone → DropZone
  select_folder nothing_picked d = d
  select_folder (one_path []) d = d
  select_folder (one_path (c ∷ path)) d = trigger_files_select ((c ∷ path) ∷ []) (some directory) d
  select_folder (paths_picked []) d = d
  select_folder (paths_picked ([] ∷ paths)) d = d
  select_folder (paths_picked ((c ∷ path) ∷ paths)) d =
      trigger_files_select ((c ∷ path) ∷ []) (some directory) d

  -- A copy has been begun: a share that gave a handler is settled.
  abbrev copying : CopySource → Option ℕ → DropZone → DropZone
  copying source none d = d
  copying share (some job) d = record d { cancel_ref = some job; settled = true }
  copying document (some job) d = record d { cancel_ref = some job }
  copying folder (some job) d = record d { cancel_ref = some job }

  unfoldable pub resume : Task → Reply → DropZone → DropZone
  unfolding show_alert trigger_files_select reset_copy
  resume checking (checked type) d = record d { path_type = some type }
  resume checking (failed text) d = record d { path_type = none }
  resume selecting (failed text) d = alert file_dialog_failed text d
  resume reading_drop (dropped paths type) d = trigger_files_select paths type d
  resume reading_drop (failed text) d = alert file_dialog_failed text d
  resume opening_files (picked choice) d = select_files choice d
  resume opening_files (failed text) d = alert file_dialog_failed text d
  resume opening_folder (picked choice) d = select_folder choice d
  resume opening_folder (failed text) d = alert folder_dialog_failed text d
  resume (starting source) (started handler) d = copying source handler d
  resume (starting source) (failed text) d = alert_start source text d
  resume (cancelling sharing) finished d = after_cancel sharing (reset_copy d)
  resume (cancelling sharing) (failed text) d =
      if sharing then alert file_dialog_failed text (reset_copy d) else reset_copy d
  resume _ _ d = d

  abbrev ends : Task → Reply → Bool
  ends checking (checked type) = true
  ends selecting finished = true
  ends reading_drop (dropped paths type) = true
  ends opening_files (picked choice) = true
  ends opening_folder (picked choice) = true
  ends (starting source) (started handler) = true
  ends (cancelling sharing) finished = true
  ends task (failed text) = true
  ends _ _ = false

  abbrev pub resume_at : Option Task → ℕ → Reply → DropZone → DropZone
  resume_at none i answer d = d
  resume_at (some task) i answer d =
      if ends task answer
      then resume task answer (record d { pending = remove_at i d.pending })
      else d

  abbrev pub set_active : Bool → DropZone → DropZone
  set_active active d = record d { is_drag_active = active }

  abbrev pub fail_copy : Text → DropZone → DropZone
  fail_copy text d = show_alert (t file_dialog_failed) text error (reset_copy d)

  unfoldable pub step : Platform → DropZone → Event → DropZone
  unfolding resume show_alert close_alert check_path_type reset_copy copy_started copy_completed
      cancel_copy set_up_shares retry_share share_received browse_file browse_folder web_drag_enter
      web_drag_leave web_drop window_drop
  step p d drag_entered = on_web p web_drag_enter d
  step p d drag_left = on_web p web_drag_leave d
  step p d dropped_items = on_web p web_drop d
  step p d (window_dropped paths) = on_tauri p (window_drop paths) d
  step p d window_hovered = on_tauri p (set_active true) d
  step p d window_left = on_tauri p (set_active false) d
  step p d (copy_begins path size) = on_android p (copy_started path size) d
  step p d (copy_goes_on progress) = on_android p (λ d. record d { copy_progress = progress }) d
  step p d (copy_ends path source) = on_android p (copy_completed path source) d
  step p d (copy_fails text) = on_android p (fail_copy text) d
  step p d shares_set_up = on_android p set_up_shares d
  step p d shared = on_android p share_received d
  step p d retried = on_android p retry_share d
  step p d browsed_file = browse_file p d
  step p d browsed_folder = browse_folder p d
  step p d cancelled = cancel_copy d
  step p d toggled = record d { show_full_path = if d.show_full_path then false else true }
  step p d closed_dialog = close_alert d
  step p d (check type) = check_path_type type d
  step p d (reply i answer) = resume_at (get_elem? d.pending i) i answer d

  unfoldable pub run : Platform → DropZone → List Event → DropZone
  unfolding step
  run p d [] = d
  run p d (e ∷ es) = run p (step p d e) es

abbrev pub init : DropZone
init = record {
  is_drag_active = false;
  path_type = none;
  show_full_path = false;
  alert_dialog = closed_alert;
  is_copying = false;
  copy_progress = 0;
  copy_file_name = [];
  copy_total_bytes = 0;
  cancel_ref = none;
  web_drag_depth = 0;
  is_listening = false;
  retries = 0;
  settled = false;
  requested_send = false;
  cancelled_jobs = [];
  selected = [];
  pending = [];
}
