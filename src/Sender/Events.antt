-- ===== src/Sender/Events.antt =====
-- frontend/src/hooks/useSender.ts: the handlers of the backend's transfer events, and what they do
-- after each `await`.
use alt_sendme.Prelude.{
  ℕ, Bool, true, false, ◌&&◌, ◌||◌, Text, Option, none, some, List, [], ◌∷◌, leb, length, is_truthy,
  split, if◌then◌else◌,
}
use alt_sendme.Transfer.{Numbers, or_number, PathType, TransferProgress, TransferMetadata}
use alt_sendme.Eta.{add_sample, get_average, calculate_eta}
use alt_sendme.Sender.Store.{
  transporting, finished, Store, set_view_state, set_transfer_metadata, set_transfer_progress,
  set_active_connection_count, reset_for_broadcast,
}
use alt_sendme.Sender.Hook.{
  broadcasting, direct, after_completion, file_size, broadcast_reset, Session, is_transporting,
  is_sharing, or_option, or_text, file_name_of, text_of, on_store, await, is_current, show_latest,
}

-- `rawPayload.split(':')` of three parts
abbrev pub three_parts {ℓ} : {A : Type ℓ} → List Text → (Text → Text → Text → A) → A → A
three_parts (a ∷ b ∷ c ∷ []) f other = f a b c
three_parts _ f other = other

module _ {N : Type 0} (num : Numbers N) where
  -- `Number.isFinite(n) ? Math.max(n / 1000, 0) : 0`
  unfoldable pub speed_of : N → N
  speed_of n = if num.is_finite n then num.max (num.div n num.thousand) num.zero else num.zero

  unfoldable pub percentage_of : N → N → N
  percentage_of bytes total =
      if num.gt total num.zero
      then num.min (num.mul (num.div bytes total) num.hundred) num.hundred
      else num.zero

  unfoldable pub progress_of : List N → N → N → N → TransferProgress N
  unfolding get_average calculate_eta percentage_of
  progress_of speeds bytes total speed = record {
    bytes_transferred = bytes;
    total_bytes = total;
    speed_bps = speed;
    percentage = percentage_of bytes total;
    eta_seconds =
        calculate_eta num (num.max (num.sub total bytes) num.zero) (get_average num speeds);
  }

  abbrev pub record_progress : Session N → N → N → N → Session N
  record_progress m bytes total speed =
      let speeds = add_sample m.speeds speed in
      record m { speeds = speeds; latest_progress = some (progress_of speeds bytes total speed) }

  unfoldable pub can_accept_progress : Session N → Bool
  can_accept_progress m =
      is_transporting m.store.view_state
      || (m.store.is_broadcast_mode && is_sharing m.store.view_state)

  -- `transfer-progress`
  unfoldable pub on_progress : Text → Session N → Session N
  unfolding can_accept_progress
  on_progress payload m =
      if can_accept_progress m
      then three_parts (split b':' payload)
          (λ a b c.
            record_progress m (num.parse_int a) (num.parse_int b) (speed_of (num.parse_int c)))
          m
      else m

  -- `active-connection-count`
  unfoldable pub on_active_count : Text → Session N → Session N
  unfolding set_active_connection_count
  on_active_count payload m =
      let count = num.parse_int payload in
      if num.is_nan count then m else on_store (set_active_connection_count count) m

  -- `transfer-started`, at the time `now`
  unfoldable pub on_started : N → Session N → Session N
  unfolding set_view_state set_transfer_progress set_transfer_metadata
  on_started now m =
      let fresh = record m {
        transfer_start_time = some now;
        latest_progress = none;
        speeds = [];
        was_manually_stopped = false;
      } in
      let cleared = λ (s : Store N). set_transfer_metadata none (set_transfer_progress none s) in
      if m.store.is_broadcast_mode
      then record fresh { store = cleared m.store; interval = some broadcasting }
      else record fresh {
        store = cleared (set_view_state transporting m.store);
        interval = some direct;
      }

  -- `transferStartTimeRef.current ? now - transferStartTimeRef.current : 0`
  abbrev pub duration_of : Option N → N → N
  duration_of none now = num.zero
  duration_of (some start) now = if num.truthy start then num.sub now start else num.zero

  -- `transfer-completed`, up to its first `await`
  unfoldable pub on_completed : Session N → Session N
  unfolding is_current set_transfer_progress
  on_completed m =
      if is_current m
      then await (after_completion m.store)
          (record m { store = show_latest m.latest_progress m.store; interval = none })
      else m

  abbrev total_of : Option (TransferProgress N) → N
  total_of none = num.zero
  total_of (some p) = or_number num.truthy (some p.total_bytes) num.zero

  abbrev metadata_of : Text → N → N → Option N → N → Bool → Option PathType → ℕ → TransferMetadata N
  metadata_of name size duration start now was path_type count = record {
    file_name = name;
    file_size = size;
    duration = duration;
    start_time = or_number num.truthy start now;
    end_time = now;
    download_path = none;
    was_stopped = was;
    path_type = path_type;
    item_count = some count;
  }

  abbrev after_shown : Bool → Session N → Session N
  after_shown true m = await broadcast_reset m
  after_shown false m = on_store (λ s. set_transfer_progress none (set_view_state finished s)) m

  -- The metadata that a completion shows first: `old` is the store that the handler read.
  abbrev pub completion_metadata : Store N → N → Session N → TransferMetadata N
  completion_metadata old now m =
      metadata_of (file_name_of (text_of (or_text old.selected_path m.selected_path_ref)))
        (total_of m.latest_progress) (duration_of m.transfer_start_time now) m.transfer_start_time
        now false (or_option old.path_type m.path_type_ref) (length old.selected_paths)

  -- `transfer-completed`, after the 10 ms
  unfoldable pub complete : Store N → N → Session N → Session N
  unfolding file_name_of set_view_state set_transfer_metadata set_transfer_progress
  complete old now m =
      let path = or_text old.selected_path m.selected_path_ref in
      let d = completion_metadata old now m in
      let shown = after_shown old.is_broadcast_mode (on_store (set_transfer_metadata (some d)) m) in
      let sized =
        await (file_size d.file_name d.duration now d.path_type (length old.selected_paths))
          shown in
      if is_truthy path then (if leb (length old.selected_paths) 1 then sized else shown) else m

  -- `get_file_size` has answered
  unfoldable pub resolve_size : Text → N → N → Option PathType → ℕ → N → Session N → Session N
  unfolding set_transfer_metadata
  resolve_size name duration now path_type count size m =
      on_store
        (set_transfer_metadata
          (some (metadata_of name size duration m.transfer_start_time now false path_type count)))
        m

  -- the timer of broadcast mode
  unfoldable pub reset_broadcast : Session N → Session N
  unfolding reset_for_broadcast
  reset_broadcast m = record m {
    store = reset_for_broadcast num.zero m.store;
    latest_progress = none;
    transfer_start_time = none;
  }

  -- `transfer-failed`
  unfoldable pub on_failed : N → Session N → Session N
  unfolding is_current reset_for_broadcast file_name_of set_view_state set_transfer_metadata
      set_transfer_progress reset_broadcast
  on_failed now m =
      let path = or_text m.store.selected_path m.selected_path_ref in
      let metadata =
        metadata_of (file_name_of (text_of path)) num.zero (duration_of m.transfer_start_time now)
          m.transfer_start_time now true (or_option m.store.path_type m.path_type_ref)
          (length m.store.selected_paths) in
      let quiet = record m { interval = none } in
      let shown =
        on_store
          (λ s.
            set_transfer_progress none
              (set_view_state finished (set_transfer_metadata (some metadata) s)))
          quiet in
      if is_current m
      then (if m.store.is_broadcast_mode
          then reset_broadcast quiet
          else if is_truthy path
          then shown
          else quiet)
      else m
