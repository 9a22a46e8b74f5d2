-- ===== src/Sender/Stopping.antt =====
-- What a stop by the user leaves behind, and which events are acted on.
use alt_sendme.Prelude.{
  ◌≡◌, refl, Bool, true, false, Text, none, some, List, [], ◌∷◌, ◌++◌, arith, Bool-cases, inl, inr,
  split, is_truthy, All, ◌∙◌, ap, length,
}
use alt_sendme.Transfer.{Numbers}
use alt_sendme.Sender.Store.{finished, set_is_broadcast_mode}
use alt_sendme.Sender.Hook.{Session, Task, stop_request, done, on_store, render, on_timer}
use alt_sendme.Sender.Events.{
  three_parts, on_progress, can_accept_progress, on_active_count, on_completed, on_failed,
}
use alt_sendme.Sender.Controls.{stop_sharing, finish_stop, was_active, stopped_metadata}
use alt_sendme.Sender.Machine.{
  Event, active_count, progress, transfer_failed, completed, stop, rendered, tick, reply, step, run,
}
use alt_sendme.Sender.Transfers.{get_elem?-append, remove_at-append}

-- The events that a transfer still sends after it was stopped, and the renders and timer between.
abbrev pub IsLate : {N : Type 0} → Event N → Type 0
IsLate completed = Unit
IsLate (transfer_failed now) = Unit
IsLate (progress payload) = Unit
IsLate (active_count payload) = Unit
IsLate rendered = Unit
IsLate tick = Unit
IsLate e = ⊥

module _ {N : Type 0} (num : Numbers N) (t : Text → Text) where
  -- Broadcast mode is switched off before the stop looks at it.
  pub stop_sharing-ignores_broadcast :
      (now : N) (b : Bool) (m : Session N)
      → stop_sharing num t now (on_store (set_is_broadcast_mode b) m) ≡ stop_sharing num t now m
  unfolding set_is_broadcast_mode stop_sharing
  stop_sharing-ignores_broadcast now b m = refl

  stop_sharing-stopped :
      (now : N) (m : Session N)
      → was_active num t m ≡ true
      → is_truthy m.selected_path_ref ≡ true
      → ((stop_sharing num t now m).was_manually_stopped ≡ true)
        × ((stop_sharing num t now m).store.view_state ≡ finished)
        × ((stop_sharing num t now m).store.transfer_metadata ≡ some (stopped_metadata num t now m))
        × ((stop_sharing num t now m).pending ≡ m.pending ++ stop_request false ∷ [])
  unfolding stop_sharing
  stop_sharing-stopped now m a p = ground arith

  -- What a late event leaves alone.
  pub record Kept (m n : Session N) : Type 0 where
    pub stopped : n.was_manually_stopped ≡ true
    pub view : n.store.view_state ≡ m.store.view_state
    pub metadata : n.store.transfer_metadata ≡ m.store.transfer_metadata
    pub ticket : n.store.ticket ≡ m.store.ticket
    pub selected : n.store.selected_paths ≡ m.store.selected_paths
    pub pending : n.pending ≡ m.pending

  unchanged : (m : Session N) → m.was_manually_stopped ≡ true → Kept m m
  unchanged m h = record {
    stopped = h;
    view = refl;
    metadata = refl;
    ticket = refl;
    selected = refl;
    pending = refl;
  }

  three_parts-Kept :
      (parts : List Text) (m : Session N) (f : Text → Text → Text → Session N)
      → m.was_manually_stopped ≡ true
      → ((a b c : Text) → Kept m (f a b c))
      → Kept m (three_parts parts f m)
  three_parts-Kept (a ∷ b ∷ c ∷ []) m f h k = k a b c
  three_parts-Kept [] m f h k = unchanged m h
  three_parts-Kept (a ∷ []) m f h k = unchanged m h
  three_parts-Kept (a ∷ b ∷ []) m f h k = unchanged m h
  three_parts-Kept (a ∷ b ∷ c ∷ d ∷ ps) m f h k = unchanged m h

  on_progress-Kept :
      (payload : Text) (m : Session N)
      → m.was_manually_stopped ≡ true
      → Kept m (on_progress num payload m)
  unfolding on_progress
  on_progress-Kept payload m h = elim (Bool-cases (can_accept_progress num m)) [
    | inl accepted ↦
        rw (accepted, on_progress)
          (three_parts-Kept (split b':' payload) m _ h (λ a b c. record {
            stopped = h;
            view = refl;
            metadata = refl;
            ticket = refl;
            selected = refl;
            pending = refl;
          }))
    | inr refused ↦ rw (refused, on_progress) (unchanged m h)
  ]

  step-Kept :
      (m : Session N) (e : Event N)
      → IsLate e
      → m.was_manually_stopped ≡ true
      → Kept m (step num t m e)
  unfolding step on_completed on_failed on_active_count render on_timer
  step-Kept m completed l h = ground arith
  step-Kept m (transfer_failed now) l h = ground arith
  step-Kept m (progress payload) l h = on_progress-Kept payload m h
  step-Kept m (active_count payload) l h = ground arith
  step-Kept m rendered l h = ground arith
  step-Kept m tick l h = ground arith
  step-Kept m e l h = absurd l

  run-Kept :
      (m : Session N) (es : List (Event N))
      → All IsLate es
      → m.was_manually_stopped ≡ true
      → Kept m (run num t m es)
  unfolding run
  run-Kept m [] l h = unchanged m h
  run-Kept m (e ∷ es) (l, ls) h =
      let k = step-Kept m e l h in
      let r = run-Kept (step num t m e) es ls k.stopped in
      record {
        stopped = r.stopped;
        view = r.view ∙ k.view;
        metadata = r.metadata ∙ k.metadata;
        ticket = r.ticket ∙ k.ticket;
        selected = r.selected ∙ k.selected;
        pending = r.pending ∙ k.pending;
      }

  run-append :
      (m : Session N) (es fs : List (Event N))
      → run num t m (es ++ fs) ≡ run num t (run num t m es) fs
  unfolding run
  run-append m [] fs = refl
  run-append m (e ∷ es) fs = run-append (step num t m e) es fs

  -- The answer to a request that is the last one awaited.
  confirmed :
      (m : Session N) (old : List (Task N)) (later : N)
      → m.pending ≡ old ++ stop_request false ∷ []
      → step num t m (reply (length old) later done)
        ≡ finish_stop num t false (record m { pending = old })
  unfolding step
  confirmed m old later e =
      let task : Task N = stop_request false in
      rw (e, get_elem?-append old task, remove_at-append old task) refl

  finished_run :
      (m : Session N) (es fs : List (Event N)) (e : Event N) (n : Session N)
      → step num t (run num t m es) e ≡ n
      → run num t m (es ++ e ∷ fs) ≡ run num t n fs
  unfolding run
  finished_run m es fs e n h = run-append m es (e ∷ fs) ∙ ap (λ s. run num t s fs) h

  -- Stopping an active transfer of a selected path shows the end screen with the metadata of a
  -- stopped transfer, and whatever completions, failures, progress and connection counts still arrive, before or after
  -- the backend has answered the stop, that screen and its metadata stay. Once it has answered, the
  -- ticket and the selection are gone.
  pub stop-final :
      (now later : N) (m : Session N) (es fs : List (Event N))
      → was_active num t m ≡ true
      → is_truthy m.selected_path_ref ≡ true
      → All IsLate es
      → All IsLate fs
      → let waiting = run num t m (stop now ∷ es) in
        let n = run num t m (stop now ∷ es ++ reply (length m.pending) later done ∷ fs) in
        (waiting.store.view_state ≡ finished)
        × (waiting.store.transfer_metadata ≡ some (stopped_metadata num t now m))
        × (n.store.view_state ≡ finished)
        × (n.store.transfer_metadata ≡ some (stopped_metadata num t now m))
        × (n.store.ticket ≡ none)
        × (n.store.selected_paths ≡ [])
  unfolding run step finish_stop
  stop-final now later m es fs a p les lfs =
      let s = stop_sharing-stopped now m a p in
      let stopping : Session N = stop_sharing num t now m in
      let waiting : Session N = run num t stopping es in
      let k = run-Kept stopping es les s.0 in
      let ended : Session N = finish_stop num t false (record waiting { pending = m.pending }) in
      let r = run-Kept ended fs lfs k.stopped in
      let whole : run num t m (stop now ∷ es ++ reply (length m.pending) later done ∷ fs)
          ≡ run num t ended fs =
        finished_run stopping es fs (reply (length m.pending) later done) ended
          (confirmed waiting m.pending later (k.pending ∙ s.3)) in
      (
        k.view ∙ s.1,
        k.metadata ∙ s.2,
        ap (λ n. n.store.view_state) whole ∙ r.view ∙ k.view ∙ s.1,
        ap (λ n. n.store.transfer_metadata) whole ∙ r.metadata ∙ k.metadata ∙ s.2,
        ap (λ n. n.store.ticket) whole ∙ r.ticket,
        ap (λ n. n.store.selected_paths) whole ∙ r.selected,
      )
