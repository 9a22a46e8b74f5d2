-- ===== src/Sender/Hook.antt =====
-- frontend/src/hooks/useSender.ts: the sender's state beside the store, and the handlers. What a
-- handler awaits is a task of the state, and the rest of the handler is what `resume` does.
use alt_sendme.Prelude.{
  ℕ, Bool, true, false, not, ◌&&◌, ◌||◌, Text, codes, Option, none, some, List, [], ◌∷◌, ◌++◌,
  is_truthy, last_segment, if◌then◌else◌,
}
use alt_sendme.Transfer.{PathType, TransferProgress, Failure}
use alt_sendme.Sender.Store.{
  ViewState, idle, sharing, transporting, finished, Store, set_transfer_progress,
  set_is_broadcast_mode,
}

-- Which of its two callbacks the progress timer runs.
pub data Interval : Type 0 where
  broadcasting direct : Interval

pub data Task (N : Type 0) : Type 0 where
  -- `transfer-completed`, 10 ms later, with the store as it was
  after_completion : Store N → Task N
  -- its `get_file_size`: name, duration, end, type and count of the metadata
  file_size : Text → N → N → Option PathType → ℕ → Task N
  -- its `setTimeout` of 2000 ms in broadcast mode
  broadcast_reset : Task N
  -- `send_items`, with the paths
  send_items : List Text → Task N
  -- `stop_sharing`; whether the sender goes back to idle
  stop_request : Bool → Task N
  -- `check_path_type`, with the path
  check_path_type : Text → Task N
  clipboard_write : Task N
  -- `setTimeout` of 2000 ms in `copyTicket`
  copy_reset : Task N

-- How a task ends. A task gets the replies of its kind.
pub data Reply (N : Type 0) : Type 0 where
  done : Reply N
  text : Text → Reply N
  number : N → Reply N
  kind : PathType → Reply N
  failed : Failure → Reply N

pub record Session (N : Type 0) : Type 0 where
  pub store : Store N
  -- the store at the last render, which the handlers' closures hold
  pub rendered : Store N
  pub latest_progress : Option (TransferProgress N)
  pub transfer_start_time : Option N
  pub interval : Option Interval
  pub was_manually_stopped : Bool
  pub selected_path_ref : Option Text
  pub path_type_ref : Option PathType
  pub speeds : List N
  pub pending : List (Task N)

abbrev pub is_transporting : ViewState → Bool
is_transporting transporting = true
is_transporting _ = false

abbrev pub is_sharing : ViewState → Bool
is_sharing sharing = true
is_sharing _ = false

abbrev pub is_idle : ViewState → Bool
is_idle idle = true
is_idle _ = false

abbrev pub is_finished : ViewState → Bool
is_finished finished = true
is_finished _ = false

-- `a || b` on values that may be `null`
abbrev pub or_option {ℓ} : {A : Type ℓ} → Option A → Option A → Option A
or_option none b = b
or_option (some a) b = some a

abbrev pub or_text : Option Text → Option Text → Option Text
or_text a b = if is_truthy a then a else b

-- `path.split('/').pop() || 'Unknown'`
abbrev known : Text → Text
known [] = codes "Unknown"
known (c ∷ s) = c ∷ s

unfoldable pub file_name_of : Text → Text
unfolding last_segment
file_name_of path = known (last_segment path)

abbrev pub text_of : Option Text → Text
text_of none = []
text_of (some s) = s

-- `transferMetadata?.wasStopped`
abbrev pub stopped {N} : {A : Type N} → (A → Bool) → Option A → Bool
stopped was none = false
stopped was (some m) = was m

-- The two callbacks of the timer.
abbrev timer_applies : Interval → ViewState → Bool
timer_applies broadcasting v = is_sharing v
timer_applies direct v = is_transporting v

module _ {N : Type 0} where
  abbrev pub on_store : (Store N → Store N) → Session N → Session N
  on_store f m = record m { store = f m.store }

  abbrev pub await : Task N → Session N → Session N
  await task m = record m { pending = m.pending ++ task ∷ [] }

  -- `clearInterval(progressUpdateIntervalRef.current)`
  abbrev pub clear_interval : Session N → Session N
  clear_interval m = record m { interval = none }

  -- latestProgressRef, transferStartTimeRef and speedAveragerRef, cleared
  abbrev pub clear_transfer : Session N → Session N
  clear_transfer m = record m { latest_progress = none; transfer_start_time = none; speeds = [] }

  -- A render: the effects that sync the refs run, and the handlers close over the store. The view
  -- (components/sender/Sender.tsx) turns broadcast mode off in the idle state.
  unfoldable pub render : Session N → Session N
  unfolding set_is_broadcast_mode
  render m =
      let store =
        if is_idle m.store.view_state && m.store.is_broadcast_mode
        then set_is_broadcast_mode false m.store
        else m.store in
      record m {
        store = store;
        rendered = store;
        selected_path_ref = store.selected_path;
        path_type_ref = store.path_type;
      }

  -- The guard of `transfer-completed` and `transfer-failed`: whether the event is acted on.
  unfoldable pub is_current : Session N → Bool
  is_current m =
      not m.was_manually_stopped
      && not (is_idle m.store.view_state)
      && is_truthy m.store.selected_path
      && (m.store.is_broadcast_mode || is_transporting m.store.view_state)

  abbrev poll : Option Interval → Option (TransferProgress N) → Session N → Session N
  poll none p m = m
  poll (some i) none m = m
  poll (some i) (some p) m =
      if timer_applies i m.store.view_state then on_store (set_transfer_progress (some p)) m else m

  unfoldable pub on_timer : Session N → Session N
  unfolding set_transfer_progress
  on_timer m = poll m.interval m.latest_progress m

  abbrev pub show_latest : Option (TransferProgress N) → Store N → Store N
  show_latest none s = s
  show_latest (some p) s = set_transfer_progress (some p) s
