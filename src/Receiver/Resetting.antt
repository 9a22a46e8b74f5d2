-- ===== src/Receiver/Resetting.antt =====
-- frontend/src/hooks/useReceiver.ts: what still arrives after a reset.
use alt_sendme.Prelude.{
  ◌≡◌, refl, sym, ap, ◌∙◌, true, false, Text, Option, none, List, [], ◌∷◌, arith, Option-cases,
  get_elem?, remove_at, inl, inr, All,
}
use alt_sendme.Transfer.{Numbers, Failure}
use alt_sendme.Receiver.State.{
  Platform, Messages, Task, download_dir, receive_file, open_folder, browse, Receiver, render,
}
use alt_sendme.Receiver.Events.{
  Fallback, on_started, on_progress, on_file_names, on_fallback, on_conflicts, on_completed,
}
use alt_sendme.Receiver.Controls.{
  change_ticket, handle_receive, fail_receive, reset, fail_browse, fail_open,
}
use alt_sendme.Receiver.Machine.{
  done, failed, fallback, Event, started, completed, progress, names, conflicts, type_ticket,
  receive, new_transfer, rendered, reply, resume, step, run,
}
use alt_sendme.Prelude.{trim, is_empty}

-- The events of the backend, and the failures and the silent ends of what is awaited.
abbrev pub IsTransfer : {N : Type 0} → Event N → Type 0
IsTransfer (started now) = Unit
IsTransfer (completed now) = Unit
IsTransfer (progress payload) = Unit
IsTransfer (names list) = Unit
IsTransfer (conflicts list) = Unit
IsTransfer (fallback payload) = Unit
IsTransfer (reply i done) = Unit
IsTransfer (reply i (failed error)) = Unit
IsTransfer e = ⊥

module _ {N : Type 0} where
  -- `r`, but for what a fallback, an alert and the end of a task may change, which is that of `n`.
  abbrev pub framed : Receiver N → Receiver N → Receiver N
  framed r n = record r {
    state = record (r.state) { save_path = n.state.save_path; alert_dialog = n.state.alert_dialog };
    android_open_uri = n.android_open_uri;
    folder_open_triggered = n.folder_open_triggered;
    pending = n.pending;
  }

  -- No transfer has begun since the last reset.
  record Silent (r : Receiver N) : Type 0 where
    seq : r.transfer_seq ≡ 0
    receiving : r.state.is_receiving ≡ false
    transporting : r.state.is_transporting ≡ false
    completed : r.state.is_completed ≡ false
    metadata : r.state.transfer_metadata ≡ none

  framed-Silent : (r n : Receiver N) → n ≡ framed r n → Silent r → Silent n
  framed-Silent r n e s = record {
    seq = ap (λ k. k.transfer_seq) e ∙ s.seq;
    receiving = ap (λ k. k.state.is_receiving) e ∙ s.receiving;
    transporting = ap (λ k. k.state.is_transporting) e ∙ s.transporting;
    completed = ap (λ k. k.state.is_completed) e ∙ s.completed;
    metadata = ap (λ k. k.state.transfer_metadata) e ∙ s.metadata;
  }

  same-framed : (r n : Receiver N) → n ≡ r → n ≡ framed r n
  same-framed r n e = e ∙ ap (framed r) (sym e)

module _ {N : Type 0} (num : Numbers N) (msg : Messages) (platform : Platform)
    (join_path : Text → Text → Option Text) where
  fallback-framed :
      (r : Receiver N) (payload : Fallback)
      → Silent r
      → on_fallback num msg platform payload r ≡ framed r (on_fallback num msg platform payload r)
  unfolding on_fallback
  fallback-framed r payload s = ground (arith, s.metadata)

  fail_receive-framed :
      (r : Receiver N) (error : Failure)
      → Silent r
      → fail_receive msg platform error r ≡ framed r (fail_receive msg platform error r)
  unfolding fail_receive
  fail_receive-framed r error s = ground (arith, s.receiving, s.transporting, s.completed)

  resume-framed :
      (task : Task) (r : Receiver N) (error : Failure)
      → Silent r
      → let n = resume num msg platform join_path task (failed error) r in n ≡ framed r n
  unfolding resume fail_browse fail_open
  resume-framed (download_dir ticket) r error s = fail_receive-framed r error s
  resume-framed (receive_file ticket path) r error s = fail_receive-framed r error s
  resume-framed browse r error s = refl
  resume-framed (open_folder path) r error s = refl

  resume-done : (task : Task) (r : Receiver N) → resume num msg platform join_path task done r ≡ r
  unfolding resume
  resume-done (download_dir ticket) r = refl
  resume-done (receive_file ticket path) r = refl
  resume-done browse r = refl
  resume-done (open_folder path) r = refl

  step-framed :
      (r : Receiver N) (e : Event N)
      → Silent r
      → IsTransfer e
      → step num msg platform join_path r e ≡ framed r (step num msg platform join_path r e)
  unfolding step on_started on_completed on_progress on_file_names on_conflicts
  step-framed r (started now) s l =
      same-framed r (on_started num msg platform now r) (ground (arith, s.seq))
  step-framed r (completed now) s l =
      same-framed r (on_completed num msg platform now r) (ground (arith, s.seq))
  step-framed r (progress payload) s l =
      same-framed r (on_progress num msg platform payload r) (ground (arith, s.seq))
  step-framed r (names list) s l =
      same-framed r (on_file_names num msg platform list r) (ground (arith, s.seq))
  step-framed r (conflicts list) s l =
      same-framed r (on_conflicts num msg platform list r) (ground (arith, s.seq))
  step-framed r (fallback payload) s l = fallback-framed r payload s
  step-framed r (reply i done) s l = elim (Option-cases (get_elem? r.pending i)) [
    | inl e ↦ rw (e, step) refl
    | inr (task, e) ↦
        let after : Receiver N = record r { pending = remove_at i r.pending } in
        rw (e, step, resume-done task after) refl
  ]
  step-framed r (reply i (failed error)) s l = elim (Option-cases (get_elem? r.pending i)) [
    | inl e ↦ rw (e, step) refl
    | inr (task, e) ↦
        let after : Receiver N = record r { pending = remove_at i r.pending } in
        rw (e, step) (resume-framed task after error (framed-Silent r after refl s))
  ]
  step-framed r e s l = absurd l

  run-framed :
      (r : Receiver N) (es : List (Event N))
      → Silent r
      → All IsTransfer es
      → run num msg platform join_path r es ≡ framed r (run num msg platform join_path r es)
  unfolding run
  run-framed r [] s l = refl
  run-framed r (e ∷ es) s (l, ls) =
      let m : Receiver N = step num msg platform join_path r e in
      let n : Receiver N = run num msg platform join_path m es in
      let k : m ≡ framed r m = step-framed r e s l in
      run-framed m es (framed-Silent r m k s) ls ∙ ap (λ x. framed x n) k

  reset-Silent : (r : Receiver N) → Silent (reset msg platform r)
  unfolding reset
  reset-Silent r = record {
    seq = refl;
    receiving = refl;
    transporting = refl;
    completed = refl;
    metadata = refl;
  }

  -- After a reset, and until the user or the view does something again, the starts, completions,
  -- progress, file names, conflicts and fallbacks that still arrive, and the failures of what was
  -- awaited, change nothing of the receiver but the save path, the alert, the URI that Android opens,
  -- the mark that a folder was opened and the list of what is awaited. In particular no transfer is
  -- shown as running or completed.
  pub reset-silences :
      (r : Receiver N) (es : List (Event N))
      → All IsTransfer es
      → let n = run num msg platform join_path r (new_transfer ∷ es) in
        (n ≡ framed (step num msg platform join_path r new_transfer) n)
        × (n.state.is_receiving ≡ false)
        × (n.state.is_transporting ≡ false)
        × (n.state.is_completed ≡ false)
        × (n.state.transfer_metadata ≡ none)
  unfolding run
  reset-silences r es l =
      let fresh : Receiver N = reset msg platform r in
      let n : Receiver N = run num msg platform join_path fresh es in
      let e : n ≡ framed fresh n = run-framed fresh es (reset-Silent r) l in
      let s = framed-Silent fresh n e (reset-Silent r) in
      (e, s.receiving, s.transporting, s.completed, s.metadata)

  abbrev begun_by : Receiver N → N → Receiver N
  begun_by r begun =
      render (on_started num msg platform begun (render (handle_receive msg platform r)))

  begun_by-transporting :
      (r : Receiver N) (begun : N)
      → is_empty (trim r.rendered.ticket) ≡ false
      → (begun_by r begun).state.is_transporting ≡ true
  unfolding render handle_receive on_started
  begun_by-transporting r begun h = ground arith

  abbrev anew : Receiver N → Text → Receiver N
  anew r ticket =
      handle_receive msg platform
        (render (change_ticket msg platform ticket (reset msg platform r)))

  anew-takes_completion :
      (r : Receiver N) (ticket : Text) (now : N)
      → is_empty (trim ticket) ≡ false
      → ((anew r ticket).state.is_receiving ≡ true)
        × ((anew r ticket).state.is_transporting ≡ false)
        × ((anew r ticket).state.is_completed ≡ false)
        × ((on_completed num msg platform now (anew r ticket)).state.is_completed ≡ true)
  unfolding reset change_ticket render handle_receive on_completed
  anew-takes_completion r ticket now h = ground arith

  reset-ignores_completion :
      (r : Receiver N) (now : N)
      → on_completed num msg platform now (reset msg platform r) ≡ reset msg platform r
  unfolding reset on_completed
  reset-ignores_completion r now = refl

  -- With tickets that are not blank: a transfer that was begun and cancelled sends its completion
  -- late. Right after the reset that is ignored; once another transfer is begun, it is taken for the
  -- completion of that one, although nothing of it has been received.
  pub reset-forgets_old :
      (r : Receiver N) (ticket : Text) (begun now : N)
      → is_empty (trim r.rendered.ticket) ≡ false
      → is_empty (trim ticket) ≡ false
      → let running =
          run num msg platform join_path r (receive ∷ rendered ∷ started begun ∷ rendered ∷ []) in
        let cancelled = step num msg platform join_path running new_transfer in
        let fresh =
          run num msg platform join_path cancelled (type_ticket ticket ∷ rendered ∷ receive ∷ []) in
        (running.state.is_transporting ≡ true)
        × (step num msg platform join_path cancelled (completed now) ≡ cancelled)
        × (fresh.state.is_receiving ≡ true)
        × (fresh.state.is_transporting ≡ false)
        × (fresh.state.is_completed ≡ false)
        × ((step num msg platform join_path fresh (completed now)).state.is_completed ≡ true)
  unfolding run
  reset-forgets_old r ticket begun now k h =
      let running : Receiver N = begun_by r begun in
      let taken = anew-takes_completion running ticket now h in
      (
        begun_by-transporting r begun k,
        reset-ignores_completion running now,
        taken.0,
        taken.1,
        taken.2,
        taken.3,
      )
