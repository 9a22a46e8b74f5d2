-- ===== src/Sender/Transfers.antt =====
-- Whole transfers, and the timer that outlives one.
use alt_sendme.Prelude.{
  ◌≡◌, refl, true, false, Text, none, some, List, [], ◌∷◌, ◌++◌, arith, get_elem?, remove_at,
  length, is_truthy, is_empty, ◌∙◌, ap,
}
use alt_sendme.Transfer.{Numbers, TransferMetadata}
use alt_sendme.Sender.Store.{
  Store, idle, sharing, transporting, finished, set_view_state, set_transfer_metadata,
  set_transfer_progress, set_is_loading, set_active_connection_count,
}
use alt_sendme.Sender.Hook.{
  Task, after_completion, broadcast_reset, send_items, Reply, done, text, Session, clear_transfer,
  await, is_current, show_latest, text_of, file_name_of, direct,
}
use alt_sendme.Sender.Events.{
  on_started, on_completed, completion_metadata, complete, reset_broadcast, on_failed,
}
use alt_sendme.Sender.Controls.{start_sharing, share, stop_sharing, finish_stop}
use alt_sendme.Sender.Machine.{
  Event, started, transfer_failed, completed, start, stop, reply, resume, step, run,
}

pub get_elem?-append {ℓ} :
    {A : Type ℓ} (xs : List A) (x : A) → get_elem? (xs ++ x ∷ []) (length xs) ≡ some x
get_elem?-append [] x = refl
get_elem?-append (y ∷ xs) x = get_elem?-append xs x

pub remove_at-append {ℓ} :
    {A : Type ℓ} (xs : List A) (x : A) → remove_at (length xs) (xs ++ x ∷ []) ≡ xs
remove_at-append [] x = refl
remove_at-append (y ∷ xs) x = ap (◌∷◌ y) (remove_at-append xs x)

module _ {N : Type 0} (num : Numbers N) (t : Text → Text) where
  -- The reply to what a handler has just begun to await runs the rest of that handler.
  reply_lem :
      (m : Session N) (task : Task N) (now : N) (answer : Reply N)
      → step num t
          (record m { pending = m.pending ++ task ∷ [] })
          (reply (length m.pending) now answer)
        ≡ resume num t task now answer m
  unfolding step
  reply_lem m task now answer =
      rw (get_elem?-append m.pending task, remove_at-append m.pending task)

  -- What the end screen shows of a transfer that began with the store `old`.
  pub record ShowsEnd (old : Store N) (n : Session N) : Type 0 where
    pub view : n.store.view_state ≡ finished
    pub progress : n.store.transfer_progress ≡ none
    pub timer : n.interval ≡ none
    pub ticket : n.store.ticket ≡ old.ticket
    pub shown : TransferMetadata N
    pub metadata : n.store.transfer_metadata ≡ some shown
    pub name : shown.file_name ≡ file_name_of (text_of old.selected_path)
    pub completed : shown.was_stopped ≡ false
    pub count : shown.item_count ≡ some (length old.selected_paths)

  complete-ShowsEnd :
      (old : Store N) (now : N) (m : Session N)
      → is_truthy old.selected_path ≡ true
      → old.is_broadcast_mode ≡ false
      → m.interval ≡ none
      → m.store.ticket ≡ old.ticket
      → ShowsEnd old (complete num old now m)
  unfolding complete
  complete-ShowsEnd old now m p b i k = record {
    view = ground arith;
    progress = ground arith;
    timer = ground arith;
    ticket = ground arith;
    shown = completion_metadata num old now m;
    metadata = ground arith;
    name = ground arith;
    completed = refl;
    count = refl;
  }

  abbrev quiet : Session N → Session N
  quiet m = record m { store = show_latest m.latest_progress m.store; interval = none }

  step-completed : (m : Session N) → step num t m completed ≡ on_completed num m
  unfolding step
  step-completed m = refl

  on_completed-current :
      (m : Session N)
      → is_current m ≡ true
      → on_completed num m ≡ await (after_completion m.store) (quiet m)
  unfolding on_completed
  on_completed-current m c = ground arith

  is_current-path : (m : Session N) → is_current m ≡ true → is_truthy m.store.selected_path ≡ true
  unfolding is_current
  is_current-path m c = ground arith

  -- A completion that is acted on in normal mode: once its delay of 10 ms is over, the end screen
  -- shows metadata with the name and the number of the selected paths, marked as not stopped, the
  -- progress display and its timer are gone, and the ticket is still held.
  pub completed-ShowsEnd :
      (m : Session N) (now : N)
      → is_current m ≡ true
      → m.store.is_broadcast_mode ≡ false
      → ShowsEnd m.store (step num t (step num t m completed) (reply (length m.pending) now done))
  unfolding resume set_transfer_progress
  completed-ShowsEnd m now c b =
      rw
        (
          step-completed m,
          on_completed-current m c,
          reply_lem (quiet m) (after_completion m.store) now done,
        )
        (complete-ShowsEnd m.store now (quiet m) (is_current-path m c) b refl (ground arith))

  abbrev begun : Session N → Session N
  begun m = record (clear_transfer m) {
    was_manually_stopped = false;
    store = set_is_loading true (
        set_active_connection_count num.zero
          (set_transfer_progress none (set_transfer_metadata none (set_view_state idle m.store))));
  }

  start_sharing-begun :
      (m : Session N) (p : Text) (ps : List Text)
      → m.rendered.selected_paths ≡ p ∷ ps
      → start_sharing num t m ≡ await (send_items (p ∷ ps)) (begun m)
  unfolding start_sharing
  start_sharing-begun m p ps e = ground arith

  -- A session that has been started, has got its ticket and has a transfer running.
  abbrev running : N → Text → Session N → Session N
  running now ticket m = record (share num t ticket (begun m)) {
    store = set_transfer_metadata none (
        set_transfer_progress none
          (set_view_state transporting (share num t ticket (begun m)).store));
    transfer_start_time = some now;
    interval = some direct;
  }

  running-on_started :
      (m : Session N) (now : N) (ticket : Text)
      → m.store.is_broadcast_mode ≡ false
      → on_started num now (share num t ticket (begun m)) ≡ running now ticket m
  unfolding on_started share start_sharing
  running-on_started m now ticket b = ground arith

  run-running :
      (m : Session N) (p : Text) (ps : List Text) (t1 t2 : N) (ticket : Text) (es : List (Event N))
      → m.rendered.selected_paths ≡ p ∷ ps
      → m.store.is_broadcast_mode ≡ false
      → run num t m (start ∷ reply (length m.pending) t1 (text ticket) ∷ started t2 ∷ es)
        ≡ run num t (running t2 ticket m) es
  unfolding run resume
  run-running m p ps t1 t2 ticket es e b =
      ap (λ n. run num t (on_started num t2 n) es)
        (ap (λ n. step num t n (reply (length m.pending) t1 (text ticket)))
            (start_sharing-begun m p ps e)
          ∙ reply_lem (begun m) (send_items (p ∷ ps)) t1 (text ticket))
      ∙ ap (λ n. run num t n es) (running-on_started m t2 ticket b)

  running-current :
      (m : Session N) (p : Text) (now : N) (ticket : Text)
      → m.store.selected_path ≡ some p
      → is_empty p ≡ false
      → is_current (running now ticket m) ≡ true
  unfolding is_current share start_sharing
  running-current m p now ticket e f = ground arith

  -- A transfer goes through: from a state with a selection, outside broadcast mode, starting to
  -- share, getting a ticket, a transfer that starts and one that completes lead to the end screen
  -- for the selected paths, with the ticket still held.
  pub transfer_succeeds :
      (m : Session N) (p : Text) (ps : List Text) (t1 t2 t3 : N) (ticket : Text)
      → m.rendered.selected_paths ≡ p ∷ ps
      → m.store.selected_path ≡ some p
      → is_empty p ≡ false
      → m.store.is_broadcast_mode ≡ false
      → let k = length m.pending in
        ShowsEnd
          (record m.store { ticket = some ticket })
          (run num t m
            (start ∷ reply k t1 (text ticket) ∷ started t2 ∷ completed ∷ reply k t3 done ∷ []))
  unfolding run share start_sharing
  transfer_succeeds m p ps t1 t2 t3 ticket r e f b =
      let v = completed-ShowsEnd (running t2 ticket m) t3 (running-current m p t2 ticket e f) b in
      rw (run-running m p ps t1 t2 ticket _ r b) (record {
        view = v.view;
        progress = v.progress;
        timer = v.timer;
        ticket = v.ticket;
        shown = v.shown;
        metadata = v.metadata;
        name = v.name;
        completed = v.completed;
        count = v.count;
      })

  -- A failure in broadcast mode that is acted on goes back to sharing: ticket, selection, mode and
  -- what is awaited stay, and the transfer's metadata, progress, timer and start time and the count
  -- of connections are cleared. The speeds that were measured stay.
  pub failed-keeps_broadcast :
      (m : Session N) (now : N)
      → is_current m ≡ true
      → m.store.is_broadcast_mode ≡ true
      → let n = step num t m (transfer_failed now) in
        (n.store.view_state ≡ sharing)
        × (n.store.ticket ≡ m.store.ticket)
        × (n.store.selected_paths ≡ m.store.selected_paths)
        × (n.store.is_broadcast_mode ≡ true)
        × (n.store.transfer_metadata ≡ none)
        × (n.store.transfer_progress ≡ none)
        × (n.store.active_connection_count ≡ num.zero)
        × (n.latest_progress ≡ none)
        × (n.transfer_start_time ≡ none)
        × (n.interval ≡ none)
        × (n.speeds ≡ m.speeds)
        × (n.pending ≡ m.pending)
  unfolding step on_failed
  failed-keeps_broadcast m now c b = ground arith

  -- The timer that a completion in broadcast mode leaves is not cancelled by a stop: when the stop
  -- is answered first, the timer then puts the sender, idle by now and with no ticket and no
  -- selection, back into the sharing state.
  pub stop-leaves_timer :
      (m : Session N) (now later last : N)
      → m.rendered.view_state ≡ sharing
      → m.pending ≡ broadcast_reset ∷ []
      → let stopped = run num t m (stop now ∷ reply 1 later done ∷ []) in
        let n = step num t stopped (reply 0 last done) in
        (stopped.store.view_state ≡ idle)
        × (n.store.view_state ≡ sharing)
        × (n.store.ticket ≡ none)
        × (n.store.selected_paths ≡ [])
  unfolding run stop_sharing finish_stop reset_broadcast
  stop-leaves_timer m now later last v p = ground arith
