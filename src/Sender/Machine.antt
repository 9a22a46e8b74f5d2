-- ===== src/Sender/Machine.antt =====
-- frontend/src/hooks/useSender.ts as a state machine: one step for each event of the backend, action
-- of the user, render, tick of the progress timer, and reply to something awaited.
use alt_sendme.Prelude.{
  ℕ, Bool, false, Text, Option, none, some, List, [], ◌∷◌, remove_at, get_elem?,
}
use alt_sendme.Transfer.{Numbers, PathType}
use alt_sendme.Sender.Store.{initial_store, set_copy_success, set_is_broadcast_mode}
use alt_sendme.Sender.Hook.{
  Task, after_completion, file_size, broadcast_reset, send_items, stop_request, check_path_type,
  clipboard_write, copy_reset, Reply, done, text, number, kind, failed, Session, on_store, render,
  on_timer,
}
use alt_sendme.Sender.Events.{
  on_progress, on_active_count, on_started, on_completed, complete, resolve_size, reset_broadcast,
  on_failed,
}
use alt_sendme.Sender.Controls.{
  select_files, clear_selected, remove_path, resolve_type, start_sharing, share, fail_share,
  stop_sharing, finish_stop, fail_stop, copy_ticket, copied, fail_copy,
}

pub data Event (N : Type 0) : Type 0 where
  -- the backend's events; those of a transfer with the time
  active_count progress : Text → Event N
  started transfer_failed : N → Event N
  completed : Event N
  -- the user's actions
  select : List Text → Option PathType → Event N
  clear : Event N
  remove : Text → Event N
  start copy : Event N
  stop : N → Event N
  broadcast : Bool → Event N
  -- React and the progress timer
  rendered tick : Event N
  -- the reply to the task at a place of `pending`, at a time
  reply : ℕ → N → Reply N → Event N

module _ {N : Type 0} where
  unfoldable pub init : N → Session N
  unfolding initial_store
  init zero = record {
    store = initial_store zero;
    rendered = initial_store zero;
    latest_progress = none;
    transfer_start_time = none;
    interval = none;
    was_manually_stopped = false;
    selected_path_ref = none;
    path_type_ref = none;
    speeds = [];
    pending = [];
  }

module _ {N : Type 0} (num : Numbers N) (t : Text → Text) where
  -- The rest of a handler, once the task that it awaits has ended. A task has no other replies.
  unfoldable pub resume : Task N → N → Reply N → Session N → Session N
  unfolding set_copy_success
  resume (after_completion old) now done m = complete num old now m
  resume (file_size name duration end path_type count) now (number size) m =
      resolve_size num name duration end path_type count size m
  resume broadcast_reset now done m = reset_broadcast num m
  resume (send_items paths) now (text ticket) m = share num t ticket m
  resume (send_items paths) now (failed error) m = fail_share num t error m
  resume (stop_request to_idle) now done m = finish_stop num t to_idle m
  resume (stop_request to_idle) now (failed error) m = fail_stop num t error m
  resume (check_path_type path) now (kind path_type) m = resolve_type num t (some path_type) m
  resume (check_path_type path) now (failed error) m = resolve_type num t none m
  resume clipboard_write now done m = copied num t m
  resume clipboard_write now (failed error) m = fail_copy num t error m
  resume copy_reset now done m = on_store (set_copy_success false) m
  resume _ now _ m = m

  -- The task at place `i` ends, and leaves `pending`.
  abbrev resume_at : Option (Task N) → ℕ → N → Reply N → Session N → Session N
  resume_at none i now answer m = m
  resume_at (some task) i now answer m =
      resume task now answer (record m { pending = remove_at i m.pending })

  unfoldable pub step : Session N → Event N → Session N
  unfolding resume set_is_broadcast_mode
  step m (active_count payload) = on_active_count num payload m
  step m (progress payload) = on_progress num payload m
  step m (started now) = on_started num now m
  step m (transfer_failed now) = on_failed num now m
  step m completed = on_completed num m
  step m (select paths provided) = select_files num t paths provided m
  step m clear = clear_selected num t m
  step m (remove path) = remove_path num t path m
  step m start = start_sharing num t m
  step m copy = copy_ticket num t m
  step m (stop now) = stop_sharing num t now m
  step m (broadcast enabled) = on_store (set_is_broadcast_mode enabled) m
  step m rendered = render m
  step m tick = on_timer m
  step m (reply i now answer) = resume_at (get_elem? m.pending i) i now answer m

  unfoldable pub run : Session N → List (Event N) → Session N
  unfolding step
  run m [] = m
  run m (e ∷ es) = run (step m e) es
