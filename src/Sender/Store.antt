-- ===== src/Sender/Store.antt =====
-- frontend/src/store/sender-store.ts: the sender's store. Each action returns the new store.
use alt_sendme.Prelude.{
  Bool, true, false, not, Text, text_eq, Option, none, some, List, [], ◌∷◌, add, head?,
  if◌then◌else◌,
}
use alt_sendme.Transfer.{
  PathType, AlertType, AlertDialogState, closed_alert, TransferProgress, TransferMetadata,
}

pub data ViewState : Type 0 where
  idle sharing transporting finished : ViewState

pub record Store (N : Type 0) : Type 0 where
  pub view_state : ViewState
  pub ticket : Option Text
  pub selected_paths : List Text
  pub selected_path : Option Text
  pub path_type : Option PathType
  pub thumbnail_url : Option Text
  pub transfer_metadata : Option (TransferMetadata N)
  pub transfer_progress : Option (TransferProgress N)
  pub is_loading : Bool
  pub copy_success : Bool
  pub is_broadcast_mode : Bool
  pub alert_dialog : AlertDialogState
  pub active_connection_count : N

-- `Array.from(new Set([...state.selectedPaths, ...paths]))`: a set keeps the order of insertion.
unfoldable pub add_all : List Text → List Text → List Text
unfolding add
add_all seen [] = seen
add_all seen (p ∷ ps) = add_all (add p seen) ps

-- `new Set(state.selectedPaths)` is built by the same insertions from the empty set.
unfoldable pub dedupe : List Text → List Text → List Text
unfolding add_all
dedupe old new = add_all (add_all [] old) new

-- `paths.filter((item) => item !== path)`
unfoldable pub without : Text → List Text → List Text
without path [] = []
without path (item ∷ items) =
    if text_eq item path then without path items else item ∷ without path items

-- `selectedPath ? [selectedPath] : []`
abbrev singleton : Option Text → List Text
singleton none = []
singleton (some []) = []
singleton (some (c ∷ s)) = (c ∷ s) ∷ []

-- `selectedPaths.length ? state.pathType : null`
abbrev kept_type : List Text → Option PathType → Option PathType
kept_type [] t = none
kept_type (p ∷ ps) t = t

module _ {N : Type 0} where
  unfoldable pub initial_store : N → Store N
  initial_store zero = record {
    view_state = idle;
    ticket = none;
    selected_paths = [];
    selected_path = none;
    path_type = none;
    thumbnail_url = none;
    transfer_metadata = none;
    transfer_progress = none;
    is_loading = false;
    copy_success = false;
    is_broadcast_mode = false;
    alert_dialog = closed_alert;
    active_connection_count = zero;
  }

  unfoldable pub set_view_state : ViewState → Store N → Store N
  set_view_state v s = record s { view_state = v }

  unfoldable pub set_ticket : Option Text → Store N → Store N
  set_ticket t s = record s { ticket = t }

  unfoldable pub set_selected_paths : List Text → Store N → Store N
  set_selected_paths ps s = record s { selected_paths = ps; selected_path = head? ps }

  unfoldable pub add_selected_paths : List Text → Store N → Store N
  unfolding dedupe
  add_selected_paths ps s =
      let selected = dedupe s.selected_paths ps in
      record s { selected_paths = selected; selected_path = head? selected }

  unfoldable pub remove_selected_path : Text → Store N → Store N
  remove_selected_path p s =
      let selected = without p s.selected_paths in
      record s {
        selected_paths = selected;
        selected_path = head? selected;
        path_type = kept_type selected s.path_type;
      }

  unfoldable pub set_selected_path : Option Text → Store N → Store N
  set_selected_path p s = record s { selected_path = p; selected_paths = singleton p }

  unfoldable pub set_path_type : Option PathType → Store N → Store N
  set_path_type t s = record s { path_type = t }

  unfoldable pub set_thumbnail_url : Option Text → Store N → Store N
  set_thumbnail_url u s = record s { thumbnail_url = u }

  unfoldable pub set_transfer_metadata : Option (TransferMetadata N) → Store N → Store N
  set_transfer_metadata m s = record s { transfer_metadata = m }

  unfoldable pub set_transfer_progress : Option (TransferProgress N) → Store N → Store N
  set_transfer_progress p s = record s { transfer_progress = p }

  unfoldable pub set_is_loading : Bool → Store N → Store N
  set_is_loading b s = record s { is_loading = b }

  unfoldable pub set_copy_success : Bool → Store N → Store N
  set_copy_success b s = record s { copy_success = b }

  unfoldable pub set_is_broadcast_mode : Bool → Store N → Store N
  set_is_broadcast_mode b s = record s { is_broadcast_mode = b }

  unfoldable pub toggle_broadcast_mode : Store N → Store N
  toggle_broadcast_mode s = record s { is_broadcast_mode = not s.is_broadcast_mode }

  unfoldable pub set_alert_dialog : AlertDialogState → Store N → Store N
  set_alert_dialog d s = record s { alert_dialog = d }

  unfoldable pub set_active_connection_count : N → Store N → Store N
  set_active_connection_count n s = record s { active_connection_count = n }

  unfoldable pub show_alert : Text → Text → AlertType → Store N → Store N
  show_alert title description type s = record s {
    alert_dialog = record { is_open = true; title = title; description = description; type = type };
  }

  unfoldable pub close_alert : Store N → Store N
  close_alert s = record s { alert_dialog = record (s.alert_dialog) { is_open = false } }

  unfoldable pub reset_to_idle : N → Store N → Store N
  reset_to_idle zero s = record s {
    view_state = idle;
    ticket = none;
    selected_paths = [];
    selected_path = none;
    path_type = none;
    thumbnail_url = none;
    transfer_metadata = none;
    transfer_progress = none;
    is_loading = false;
    is_broadcast_mode = false;
    active_connection_count = zero;
  }

  unfoldable pub reset_for_broadcast : N → Store N → Store N
  reset_for_broadcast zero s = record s {
    view_state = sharing;
    transfer_metadata = none;
    transfer_progress = none;
    thumbnail_url = none;
    active_connection_count = zero;
  }
