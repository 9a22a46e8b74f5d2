-- ===== src/Receiver/State.antt =====
-- frontend/src/hooks/useReceiver.ts: the receiver's state, its refs, and what a render does.
use alt_sendme.Prelude.{
  ℕ, suc, Bool, true, false, not, ◌&&◌, Text, text_eq, Option, none, some, List, [], ◌∷◌, ◌++◌,
  ◌==◌, trim, is_empty, if◌then◌else◌,
}
use alt_sendme.Transfer.{AlertDialogState, AlertType, TransferProgress, TransferMetadata}

-- frontend/src/types/transfer.ts; the thumbnails and the items, which are only shown, are left out.
pub record TicketPreviewMetadata : Type 0 where
  pub file_name : Text
  pub item_count : ℕ
  pub size : ℕ
  pub mime_type : Option Text

-- frontend/src/lib/platform.ts
pub record Platform : Type 0 where
  pub is_web : Bool
  pub is_android : Bool

-- The interface's messages, by their keys: alone, with a count, with a path.
pub record Messages : Type 0 where
  pub plain : Text → Text
  pub counted : Text → ℕ → Text
  pub with_path : Text → Text → Text

pub data Task : Type 0 where
  -- `downloadDir()` in `receiveWithTicket`, with the ticket
  download_dir : Text → Task
  -- `receive_file`, with the ticket and the folder
  receive_file : Text → Text → Task
  -- the folder dialog of `handleBrowseFolder`
  browse : Task
  -- `openDownloadFolder` or `revealItemInDir`, with what is opened
  open_folder : Text → Task

pub record State (N : Type 0) : Type 0 where
  pub ticket : Text
  pub is_receiving : Bool
  pub is_transporting : Bool
  pub is_completed : Bool
  pub save_path : Text
  pub transfer_metadata : Option (TransferMetadata N)
  pub transfer_progress : Option (TransferProgress N)
  pub transfer_start_time : Option N
  pub file_names : List Text
  pub preview_metadata : Option TicketPreviewMetadata
  pub is_preview_loading : Bool
  pub alert_dialog : AlertDialogState
  -- the store frontend/src/store/app-setting.ts
  pub downloads_path : Text
  pub downloads_uri : Text

pub record Receiver (N : Type 0) : Type 0 where
  pub state : State N
  -- the state at the last render, which the handlers' closures hold
  pub rendered : State N
  pub pending_conflict_notice : Option Text
  pub file_names_ref : List Text
  pub transfer_progress_ref : Option (TransferProgress N)
  pub transfer_start_time_ref : Option N
  pub save_path_ref : Text
  pub downloads_uri_ref : Text
  pub folder_open_triggered : Bool
  pub android_open_uri : Text
  pub speeds : List N
  pub preview_request_seq : ℕ
  pub preview_metadata_ref : Option TicketPreviewMetadata
  pub transfer_item_count : Option ℕ
  pub transfer_seq : ℕ
  -- the timer of the preview, with its number and ticket
  pub preview_timer : Option (ℕ × Text)
  -- the numbers of the `fetch_ticket_metadata` calls that are not answered
  pub fetches : List ℕ
  pub pending : List Task

abbrev pub same_bool : Bool → Bool → Bool
same_bool true b = b
same_bool false b = not b

module _ {N : Type 0} where
  abbrev pub on_state : (State N → State N) → Receiver N → Receiver N
  on_state f r = record r { state = f r.state }

  abbrev pub await : Task → Receiver N → Receiver N
  await task r = record r { pending = r.pending ++ task ∷ [] }

  abbrev pub alert : Text → Text → AlertType → State N → State N
  alert title description type s = record s {
    alert_dialog = record { is_open = true; title = title; description = description; type = type };
  }

  -- `closeAlert`
  unfoldable pub close_alert : State N → State N
  close_alert s = record s { alert_dialog = record (s.alert_dialog) { is_open = false } }

  -- `setPreviewMetadata(null)`, with its ref
  abbrev clear_preview : Receiver N → Receiver N
  clear_preview r = record r {
    state = record (r.state) { preview_metadata = none };
    preview_metadata_ref = none;
  }

  abbrev pub set_loading : Bool → Receiver N → Receiver N
  set_loading b r = on_state (λ s. record s { is_preview_loading = b }) r

  -- The effect that fetches the preview of a ticket; the timer of the one before is cancelled.
  unfoldable pub preview_effect : Receiver N → Receiver N
  unfolding trim
  preview_effect r =
      let seq = suc r.preview_request_seq in
      let next = record r { preview_request_seq = seq; preview_timer = none } in
      let trimmed = trim r.state.ticket in
      if r.state.is_receiving
      then set_loading false next
      else if is_empty trimmed
      then set_loading false (clear_preview next)
      else record (clear_preview (set_loading true next)) { preview_timer = some (seq, trimmed) }

  -- The effects that sync the refs.
  abbrev sync : Receiver N → Receiver N
  sync r = record r {
    rendered = r.state;
    file_names_ref = r.state.file_names;
    transfer_progress_ref = r.state.transfer_progress;
    transfer_start_time_ref = r.state.transfer_start_time;
    save_path_ref = r.state.save_path;
    downloads_uri_ref = r.state.downloads_uri;
  }

  -- A render. The effect of the preview runs when the ticket or `isReceiving` has changed.
  unfoldable pub render : Receiver N → Receiver N
  unfolding preview_effect
  render r =
      let same =
        text_eq r.state.ticket r.rendered.ticket
        && same_bool r.state.is_receiving r.rendered.is_receiving in
      if same then sync r else preview_effect (sync r)

  -- The 300 ms of the preview's timer are over: the request is sent.
  abbrev pub fire : Option (ℕ × Text) → Receiver N → Receiver N
  fire none r = r
  fire (some (seq, ticket)) r = record r { preview_timer = none; fetches = r.fetches ++ seq ∷ [] }

  unfoldable pub on_preview_timer : Receiver N → Receiver N
  on_preview_timer r = fire r.preview_timer r

  -- The request with the number `seq` is answered, `none` for a failure.
  unfoldable pub on_preview : ℕ → Option TicketPreviewMetadata → Receiver N → Receiver N
  on_preview seq answer r =
      if r.preview_request_seq == seq
      then record r {
        state = record (r.state) { preview_metadata = answer; is_preview_loading = false };
        preview_metadata_ref = answer;
      }
      else r
