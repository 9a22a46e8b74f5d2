-- ===== src/Receiver/Events.antt =====
-- frontend/src/hooks/useReceiver.ts: the handlers of the backend's events. A payload that is JSON is
-- given parsed, `none` where it is malformed.
use alt_sendme.Prelude.{
  ℕ, ◌-◌, Bool, true, false, not, ◌&&◌, Text, codes, Option, none, some, List, [], ◌∷◌, ◌++◌, ◌==◌,
  leb, trim, split, is_empty, if◌then◌else◌, length, last_segment, to_slashes, take, map, text_eq,
}
use alt_sendme.Transfer.{
  Numbers, or_number, AlertType, PathType, file, directory, TransferProgress, TransferMetadata,
}
use alt_sendme.Eta.{add_sample, get_average, calculate_eta}
use alt_sendme.Sender.Events.{three_parts, percentage_of}
use alt_sendme.Receiver.Paths.{count_top_level_items, or_else_text, first_part}
use alt_sendme.Receiver.State.{TicketPreviewMetadata, Platform, Messages, State, Receiver, alert}

-- `{ original, resolved }`
pub record Conflict : Type 0 where
  pub original : Text
  pub resolved : Text

-- The fallback's payload: a path, or an object with a path and a reason.
pub record Fallback : Type 0 where
  pub path : Text
  pub reason : Option Text

-- `normalizeSeparators(p).split('/').pop() || p`
unfoldable pub basename : Text → Text
unfolding last_segment to_slashes
basename p = or_else_text (last_segment (to_slashes p)) p

abbrev conflict_line : Conflict → Text
conflict_line c = basename c.original ++ codes " → " ++ basename c.resolved

-- `.join('\n')`
unfoldable pub join_lines : List Text → Text
join_lines [] = []
join_lines (l ∷ []) = l
join_lines (l ∷ k ∷ ls) = l ++ 10 ∷ join_lines (k ∷ ls)

-- The file name that the end screen shows, and whether it is a folder, without a preview.
abbrev named_by_files : Messages → ℕ → List Text → Text → Text
named_by_files msg count [] fallback = fallback
named_by_files msg count (name ∷ names) fallback =
    if leb count 1
    then or_else_text (last_segment name) name
    else (let parts = split b'/' name in
        let many = msg.counted (codes "common:transfer.multipleFiles") count in
        if leb 2 (length parts) then or_else_text (first_part parts) many else many)

unfoldable pub display_name : Messages → Option TicketPreviewMetadata → ℕ → List Text → Text
unfolding last_segment split
display_name msg none count names =
    named_by_files msg count names (msg.plain (codes "common:receiver.downloadedFile"))
display_name msg (some preview) count names =
    if is_empty preview.file_name
    then named_by_files msg count names (msg.plain (codes "common:receiver.downloadedFile"))
    else preview.file_name

abbrev is_directory : Option Text → Bool
is_directory none = false
is_directory (some mime) = text_eq mime (codes "inode/directory")

unfoldable pub received_type : Option TicketPreviewMetadata → ℕ → List Text → Option PathType
unfolding text_eq
received_type none count names =
    if count == 1 then some (if leb 2 (length names) then directory else file) else none
received_type (some preview) count names =
    some (if is_directory preview.mime_type then directory else file)

-- `transferItemCountRef.current ?? countTopLevelItems(names)`
abbrev item_count_of : Option ℕ → List Text → ℕ
item_count_of none names = count_top_level_items names
item_count_of (some n) names = n

module _ {N : Type 0} (num : Numbers N) (msg : Messages) (platform : Platform) where
  -- An event of a transfer is dropped while no transfer has begun since the last reset.
  abbrev pub while_active : (Receiver N → Receiver N) → Receiver N → Receiver N
  while_active f r = if r.transfer_seq == 0 then r else f r

  -- `receive-started`, at the time `now`
  unfoldable pub on_started : N → Receiver N → Receiver N
  on_started now = while_active λ r. record r {
    state = record (r.state) {
      is_transporting = true;
      is_completed = false;
      transfer_start_time = some now;
      transfer_progress = none;
    };
    speeds = [];
  }

  abbrev progress_of : List N → N → N → N → TransferProgress N
  progress_of speeds bytes total speed = record {
    bytes_transferred = bytes;
    total_bytes = total;
    speed_bps = speed;
    percentage = percentage_of num bytes total;
    eta_seconds =
        calculate_eta num (num.max (num.sub total bytes) num.zero) (get_average num speeds);
  }

  abbrev pub record_progress : Receiver N → N → N → N → Receiver N
  record_progress r bytes total speed =
      let speeds = add_sample r.speeds speed in
      record r {
        speeds = speeds;
        state = record (r.state) {
          transfer_progress = some (progress_of speeds bytes total speed);
        };
      }

  abbrev pub take_progress : Text → Receiver N → Receiver N
  take_progress payload r =
      three_parts (split b':' payload)
        (λ a b c.
          record_progress r (num.parse_int a) (num.parse_int b)
            (num.div (num.parse_int c) num.thousand))
        r

  -- `receive-progress`
  unfoldable pub on_progress : Text → Receiver N → Receiver N
  on_progress payload = while_active (take_progress payload)

  -- `receive-file-names`
  abbrev keep_names : Option (List Text) → Receiver N → Receiver N
  keep_names none r = r
  keep_names (some names) r = record r {
    state = record (r.state) { file_names = names };
    file_names_ref = names;
  }

  unfoldable pub on_file_names : Option (List Text) → Receiver N → Receiver N
  on_file_names names = while_active (keep_names names)

  abbrev with_download_path : Text → Option (TransferMetadata N) → Option (TransferMetadata N)
  with_download_path path none = none
  with_download_path path (some d) = some (record d { download_path = some path })

  abbrev fallback_key : Option Text → Text
  fallback_key none = codes "common:receiver.downloadFallbackDescription"
  fallback_key (some reason) =
      if text_eq reason (codes "saf")
      then codes "common:receiver.downloadFallbackSafDescription"
      else codes "common:receiver.downloadFallbackDescription"

  -- `receive-download-fallback`
  unfoldable pub on_fallback : Fallback → Receiver N → Receiver N
  unfolding trim
  on_fallback payload r =
      let path = trim payload.path in
      let moved =
        alert (msg.plain (codes "common:receiver.downloadFallbackTitle"))
          (msg.with_path (fallback_key payload.reason) path) AlertType.info
          (record (r.state) {
            save_path = path;
            transfer_metadata = with_download_path path r.state.transfer_metadata;
          }) in
      if platform.is_android && not (is_empty path)
      then record r { android_open_uri = []; state = moved }
      else r

  -- The notice of a list of conflicts: the first three, and how many more.
  unfoldable pub conflict_notice : List Conflict → Text
  unfolding basename join_lines
  conflict_notice conflicts =
      let preview = join_lines (map conflict_line (take 3 conflicts)) in
      if leb 4 (length conflicts)
      then preview
        ++ 10 ∷ msg.counted (codes "common:receiver.conflictsMore") (length conflicts - 3)
      else preview

  abbrev keep_conflicts : Option (List Conflict) → Receiver N → Receiver N
  keep_conflicts none r = r
  keep_conflicts (some []) r = r
  keep_conflicts (some (c ∷ cs)) r = record r {
    pending_conflict_notice = some (conflict_notice (c ∷ cs));
  }

  -- `receive-conflicts`
  unfoldable pub on_conflicts : Option (List Conflict) → Receiver N → Receiver N
  unfolding conflict_notice
  on_conflicts conflicts = while_active (keep_conflicts conflicts)

  -- `start ? now - start : 0`
  abbrev pub duration_of : Option N → N → N
  duration_of none now = num.zero
  duration_of (some start) now = if num.truthy start then num.sub now start else num.zero

  abbrev total_of : Option (TransferProgress N) → N
  total_of none = num.zero
  total_of (some p) = or_number num.truthy (some p.total_bytes) num.zero

  -- The metadata of a completed transfer.
  unfoldable pub received_metadata : N → Receiver N → TransferMetadata N
  unfolding display_name received_type
  received_metadata now r =
      let count = item_count_of r.transfer_item_count r.file_names_ref in
      record {
        file_name = display_name msg r.preview_metadata_ref count r.file_names_ref;
        file_size = total_of r.transfer_progress_ref;
        duration = duration_of r.transfer_start_time_ref now;
        start_time = or_number num.truthy r.transfer_start_time_ref now;
        end_time = now;
        download_path = some r.save_path_ref;
        was_stopped = false;
        path_type = received_type r.preview_metadata_ref count r.file_names_ref;
        item_count = if leb 2 count then some count else none;
      }

  -- `if (pendingConflictNoticeRef.current) showAlert(…)`
  abbrev tell_conflicts : Option Text → State N → State N
  tell_conflicts none s = s
  tell_conflicts (some []) s = s
  tell_conflicts (some (c ∷ notice)) s =
      alert (msg.plain (codes "common:receiver.downloadCompletedWithConflicts")) (c ∷ notice)
        AlertType.info s

  -- An empty notice is falsy and stays.
  abbrev told : Option Text → Option Text
  told none = none
  told (some []) = some []
  told (some (c ∷ notice)) = none

  -- `receive-completed`, at the time `now`
  unfoldable pub on_completed : N → Receiver N → Receiver N
  on_completed now = while_active λ r. record r {
    state = tell_conflicts r.pending_conflict_notice (record (r.state) {
      is_transporting = false;
      is_completed = true;
      transfer_progress = none;
      transfer_metadata = some (received_metadata now r);
    });
    pending_conflict_notice = told r.pending_conflict_notice;
  }
