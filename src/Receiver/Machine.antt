-- ===== src/Receiver/Machine.antt =====
-- frontend/src/hooks/useReceiver.ts as a state machine: one step for each event of the backend,
-- action of the user, render, timer, and reply to something awaited.
use alt_sendme.Prelude.{
  ℕ, Bool, false, Text, Option, none, some, List, [], ◌∷◌, remove_at, get_elem?,
}
use alt_sendme.Transfer.{Numbers, Failure, closed_alert}
use alt_sendme.Receiver.State.{
  TicketPreviewMetadata, Platform, Messages, Task, download_dir, receive_file, browse, open_folder,
  State, Receiver, render, on_preview_timer, on_preview, close_alert, on_state,
}
use alt_sendme.Receiver.Events.{
  Conflict, Fallback, on_started, on_progress, on_file_names, on_fallback, on_conflicts,
  on_completed,
}
use alt_sendme.Receiver.Controls.{
  PairedInvite, change_ticket, handle_receive, found_folder, fail_receive, accept_invite, reset,
  initialize, browse_folder, browsed, fail_browse, open_received, fail_open,
}

-- How a task ends. A task gets the replies of its kind.
pub data Reply : Type 0 where
  done : Reply
  -- a folder; the dialog of Android has a URI too
  folder : Option Text → Text → Reply
  failed : Failure → Reply

pub data Event (N : Type 0) : Type 0 where
  -- the backend's events, with the time where the handler reads the clock
  started completed : N → Event N
  progress : Text → Event N
  names : Option (List Text) → Event N
  fallback : Fallback → Event N
  conflicts : Option (List Conflict) → Event N
  -- the user's actions
  type_ticket : Text → Event N
  receive new_transfer open_result dismiss : Event N
  accept : PairedInvite → Event N
  browse_for : Bool → Event N
  -- React, the timer of the preview, and the first save path
  rendered preview_due : Event N
  initialized : Text → Event N
  -- the answer to the preview request at a place of `fetches`
  preview_answer : ℕ → Option TicketPreviewMetadata → Event N
  -- the reply to the task at a place of `pending`
  reply : ℕ → Reply → Event N

module _ {N : Type 0} where
  abbrev pub blank : State N
  blank = record {
    ticket = [];
    is_receiving = false;
    is_transporting = false;
    is_completed = false;
    save_path = [];
    transfer_metadata = none;
    transfer_progress = none;
    transfer_start_time = none;
    file_names = [];
    preview_metadata = none;
    is_preview_loading = false;
    alert_dialog = closed_alert;
    downloads_path = [];
    downloads_uri = [];
  }

  unfoldable pub init : Receiver N
  init = record {
    state = blank;
    rendered = blank;
    pending_conflict_notice = none;
    file_names_ref = [];
    transfer_progress_ref = none;
    transfer_start_time_ref = none;
    save_path_ref = [];
    downloads_uri_ref = [];
    folder_open_triggered = false;
    android_open_uri = [];
    speeds = [];
    preview_request_seq = 0;
    preview_metadata_ref = none;
    transfer_item_count = none;
    transfer_seq = 0;
    preview_timer = none;
    fetches = [];
    pending = [];
  }

module _ {N : Type 0} (num : Numbers N) (msg : Messages) (platform : Platform)
    (join_path : Text → Text → Option Text) where
  -- The rest of a handler, once the task that it awaits has ended. A task has no other replies.
  unfoldable pub resume : Task → Reply → Receiver N → Receiver N
  resume (download_dir ticket) (folder (some path) uri) r = found_folder msg platform ticket path r
  resume (download_dir ticket) (failed error) r = fail_receive msg platform error r
  resume (receive_file ticket path) (failed error) r = fail_receive msg platform error r
  resume browse (folder path uri) r = browsed msg platform path uri r
  resume browse (failed error) r = fail_browse msg platform error r
  resume (open_folder path) (failed error) r = fail_open msg platform error r
  resume _ _ r = r

  abbrev resume_at : Option Task → ℕ → Reply → Receiver N → Receiver N
  resume_at none i answer r = r
  resume_at (some task) i answer r =
      resume task answer (record r { pending = remove_at i r.pending })

  abbrev answer_at : Option ℕ → ℕ → Option TicketPreviewMetadata → Receiver N → Receiver N
  answer_at none i answer r = r
  answer_at (some seq) i answer r =
      on_preview seq answer (record r { fetches = remove_at i r.fetches })

  unfoldable pub step : Receiver N → Event N → Receiver N
  unfolding resume
  step r (started now) = on_started num msg platform now r
  step r (completed now) = on_completed num msg platform now r
  step r (progress payload) = on_progress num msg platform payload r
  step r (names list) = on_file_names num msg platform list r
  step r (fallback payload) = on_fallback num msg platform payload r
  step r (conflicts list) = on_conflicts num msg platform list r
  step r (type_ticket ticket) = change_ticket msg platform ticket r
  step r receive = handle_receive msg platform r
  step r new_transfer = reset msg platform r
  step r open_result = open_received msg platform join_path r
  step r dismiss = on_state close_alert r
  step r (accept invite) = accept_invite msg platform invite r
  step r (browse_for picker) = browse_folder msg platform picker r
  step r rendered = render r
  step r preview_due = on_preview_timer r
  step r (initialized path) = initialize msg platform path r
  step r (preview_answer i answer) = answer_at (get_elem? r.fetches i) i answer r
  step r (reply i answer) = resume_at (get_elem? r.pending i) i answer r

  unfoldable pub run : Receiver N → List (Event N) → Receiver N
  unfolding step
  run r [] = r
  run r (e ∷ es) = run (step r e) es
