-- ===== src/Dropping/State.antt =====
-- frontend/src/hooks/useDragDrop.ts: the hook's state and its handlers, split at each `await`.
use alt_sendme.Prelude.{
  ℕ, suc, ◌-◌, Bool, true, false, Text, Option, none, some, List, [], ◌∷◌, ◌++◌, last_or, non_empty,
  split, to_slashes, ltb, ◌==◌, if◌then◌else◌,
}
use alt_sendme.Transfer.{PathType, file, directory, AlertType, AlertDialogState}

-- Where the program runs (frontend/src/lib/platform.ts).
pub data Platform : Type 0 where
  web desktop android : Platform

-- Where a copy into the cache comes from.
pub data CopySource : Type 0 where
  document folder share : CopySource

-- What is awaited.
pub data Task : Type 0 where
  checking selecting reading_drop opening_files opening_folder : Task
  starting : CopySource → Task
  -- `cancelJob`, and whether a share waits for it
  cancelling : Bool → Task

pub record DropZone : Type 0 where
  pub is_drag_active : Bool
  pub path_type : Option PathType
  pub show_full_path : Bool
  pub alert_dialog : AlertDialogState
  pub is_copying : Bool
  -- percent
  pub copy_progress : ℕ
  pub copy_file_name : Text
  -- the number that the text shows
  pub copy_total_bytes : ℕ
  -- the job that `cancelRef` cancels
  pub cancel_ref : Option ℕ
  pub web_drag_depth : ℕ
  -- the effect of the shares: its listener is there, the timers that are left, and `settled`
  pub is_listening : Bool
  pub retries : ℕ
  pub settled : Bool
  -- what was called: `requestTab('send')`, `cancelJob` and `onFilesSelect`
  pub requested_send : Bool
  pub cancelled_jobs : List ℕ
  pub selected : List (List Text × Option PathType)
  pub pending : List Task

abbrev pub await : Task → DropZone → DropZone
await task d = record d { pending = d.pending ++ task ∷ [] }

abbrev pub type_of : CopySource → PathType
type_of document = file
type_of folder = directory
type_of share = file

unfoldable pub show_alert : Text → Text → AlertType → DropZone → DropZone
show_alert title description type d = record d {
  alert_dialog = record { is_open = true; title = title; description = description; type = type };
}

unfoldable pub close_alert : DropZone → DropZone
close_alert d = record d { alert_dialog = record (d.alert_dialog) { is_open = false } }

unfoldable pub check_path_type : Option PathType → DropZone → DropZone
check_path_type none d = await checking d
check_path_type (some type) d = record d { path_type = some type }

-- `triggerFilesSelect`, up to its `await`; `onFilesSelect` is given.
unfoldable pub trigger_files_select : List Text → Option PathType → DropZone → DropZone
trigger_files_select [] type d = d
trigger_files_select (path ∷ paths) type d =
    await selecting (record d { selected = d.selected ++ (path ∷ paths, type) ∷ [] })

unfoldable pub reset_copy : DropZone → DropZone
reset_copy d = record d {
  is_copying = false;
  copy_progress = 0;
  copy_file_name = [];
  copy_total_bytes = 0;
  cancel_ref = none;
}

-- The callbacks of a copy. Its name is the last part of its path that is not empty, or the path.
abbrev copy_name : Text → Text
copy_name path = last_or (non_empty (split b'/' (to_slashes path))) path

unfoldable pub copy_started : Text → ℕ → DropZone → DropZone
unfolding non_empty split to_slashes
copy_started path size d = record d {
  copy_file_name = copy_name path;
  copy_total_bytes = size;
  copy_progress = 0;
  is_copying = true;
}

unfoldable pub copy_completed : Text → CopySource → DropZone → DropZone
unfolding reset_copy trigger_files_select
copy_completed path source d =
    trigger_files_select (path ∷ []) (some (type_of source)) (reset_copy d)

-- `cancelCopy`, up to its `await`; `sharing` says that a share waits for it.
abbrev pub begin_share : DropZone → DropZone
begin_share d = await (starting share) d

abbrev pub after_cancel : Bool → DropZone → DropZone
after_cancel sharing d = if sharing then begin_share d else d

abbrev cancel_job : Bool → Option ℕ → DropZone → DropZone
cancel_job sharing none d = after_cancel sharing (if sharing then d else reset_copy d)
cancel_job sharing (some job) d =
    await (cancelling sharing) (record d { cancelled_jobs = d.cancelled_jobs ++ job ∷ [] })

unfoldable pub cancel_copy : DropZone → DropZone
unfolding reset_copy
cancel_copy d = cancel_job false d.cancel_ref d

-- `consumeAndroidShare`; without a job to cancel the copy is begun at once.
unfoldable pub consume_android_share : DropZone → DropZone
unfolding reset_copy
consume_android_share d = cancel_job true d.cancel_ref (record d { requested_send = true })

-- `run` of the effect of the shares
unfoldable pub run_share : DropZone → DropZone
unfolding consume_android_share
run_share d = if d.settled then d else consume_android_share d

-- The listener of the shares is there: a share may be waiting, and six timers are set.
unfoldable pub set_up_shares : DropZone → DropZone
unfolding run_share
set_up_shares d = run_share (record d { is_listening = true; retries = 6 })

unfoldable pub retry_share : DropZone → DropZone
unfolding run_share
retry_share d = if ltb 0 d.retries then run_share (record d { retries = d.retries - 1 }) else d

unfoldable pub share_received : DropZone → DropZone
unfolding run_share
share_received d = if d.is_listening then run_share d else d

abbrev pub is_android : Platform → Bool
is_android web = false
is_android desktop = false
is_android android = true

unfoldable pub browse_file : Platform → DropZone → DropZone
browse_file platform d =
    if is_android platform then await (starting document) d else await opening_files d

unfoldable pub browse_folder : Platform → DropZone → DropZone
browse_folder platform d =
    if is_android platform then await (starting folder) d else await opening_folder d

-- The drags of the browser.
unfoldable pub web_drag_enter : DropZone → DropZone
web_drag_enter d = record d { web_drag_depth = suc d.web_drag_depth; is_drag_active = true }

unfoldable pub web_drag_leave : DropZone → DropZone
web_drag_leave d =
    let depth = d.web_drag_depth - 1 in
    record d {
      web_drag_depth = depth;
      is_drag_active = if depth == 0 then false else d.is_drag_active;
    }

unfoldable pub web_drop : DropZone → DropZone
web_drop d = await reading_drop (record d { web_drag_depth = 0; is_drag_active = false })

-- The drags of the desktop's window.
unfoldable pub window_drop : List Text → DropZone → DropZone
unfolding trigger_files_select
window_drop paths d = trigger_files_select paths none (record d { is_drag_active = false })
