-- ===== src/Receiver/Sequence.antt =====
-- The numbers that tell a preview request from the ones before, and a transfer that goes through.
use alt_sendme.Prelude.{
  ℕ, ◌≤◌, ◌<◌, ◌≡◌, refl, true, false, Text, Option, none, some, List, [], ◌∷◌, ◌==◌, arith,
  Option-cases, get_elem?, remove_at, inl, inr, split,
}
use alt_sendme.Transfer.{Numbers}
use alt_sendme.Sender.Selection.{three_parts-elim}
use alt_sendme.Receiver.State.{
  TicketPreviewMetadata, Platform, Messages, Task, download_dir, browse, Receiver, fire, render,
  on_preview_timer, on_preview, close_alert,
}
use alt_sendme.Receiver.Events.{
  on_started, on_progress, on_file_names, on_fallback, on_conflicts, on_completed, record_progress,
}
use alt_sendme.Receiver.Controls.{
  change_ticket, handle_receive, found_folder, fail_receive, accept_invite, reset, initialize,
  browse_folder, browsed, fail_browse, open_received, fail_open,
}
use alt_sendme.Receiver.Machine.{
  Reply, folder, Event, started, completed, progress, names, conflicts, receive, rendered,
  preview_due, preview_answer, reply, resume, step, run,
}
use alt_sendme.Receiver.Events.{received_metadata}
use alt_sendme.Transfer.{TransferMetadata}
use alt_sendme.Prelude.{trim, is_empty}

module _ {N : Type 0} (num : Numbers N) (msg : Messages) (platform : Platform)
    (join_path : Text → Text → Option Text) where
  render-seq : (r : Receiver N) → r.preview_request_seq ≤ (render r).preview_request_seq
  unfolding render
  render-seq r = ground arith

  fire-seq :
      (t : Option (ℕ × Text)) (r : Receiver N)
      → (fire t r).preview_request_seq ≡ r.preview_request_seq
  fire-seq none r = refl
  fire-seq (some (k, ticket)) r = refl

  progress-seq :
      (r : Receiver N) (payload : Text)
      → r.preview_request_seq ≤ (on_progress num msg platform payload r).preview_request_seq
  unfolding on_progress
  progress-seq r payload = ground (
    arith,
    three_parts-elim (λ (n : Receiver N). r.preview_request_seq ≤ n.preview_request_seq)
        (split b':' payload)
        (λ a b c.
          record_progress num msg platform r (num.parse_int a) (num.parse_int b)
            (num.div (num.parse_int c) num.thousand))
        r (λ a b c. omega arith) (omega arith),
  )

  resume-seq :
      (task : Task) (answer : Reply) (r : Receiver N)
      → r.preview_request_seq
        ≤ (resume num msg platform join_path task answer r).preview_request_seq
  unfolding resume found_folder fail_receive fail_browse browsed fail_open
  resume-seq (download_dir ticket) (folder (some path) uri) r = ground arith
  resume-seq browse (folder (some path) uri) r = ground arith
  resume-seq task answer r = ground arith

  step-seq :
      (r : Receiver N) (e : Event N)
      → r.preview_request_seq ≤ (step num msg platform join_path r e).preview_request_seq
  unfolding step change_ticket handle_receive browse_folder initialize close_alert on_started
      on_completed on_file_names on_fallback on_conflicts reset open_received accept_invite
      on_preview_timer on_preview
  step-seq r (progress payload) = progress-seq r payload
  step-seq r (conflicts none) = ground arith
  step-seq r (conflicts (some [])) = ground arith
  step-seq r (conflicts (some (c ∷ cs))) = ground arith
  step-seq r rendered = render-seq r
  step-seq r preview_due = omega (arith, fire-seq r.preview_timer r)
  step-seq r (preview_answer i answer) = ground arith
  step-seq r (reply i answer) = elim (Option-cases (get_elem? r.pending i)) [
    | inl e ↦ rw (e, step) (omega arith)
    | inr (task, e) ↦
        rw (e, step) (resume-seq task answer (record r { pending = remove_at i r.pending }))
  ]
  step-seq r e = ground arith

  run-seq :
      (r : Receiver N) (es : List (Event N))
      → r.preview_request_seq ≤ (run num msg platform join_path r es).preview_request_seq
  unfolding run
  run-seq r [] = omega arith
  run-seq r (e ∷ es) = omega (arith, step-seq r e, run-seq (step num msg platform join_path r e) es)

  -- The answer to a preview request that is older than the latest one, however much later it comes,
  -- only ends that request: neither the preview nor its loading mark changes.
  pub old_answer-ignored :
      (r : Receiver N) (es : List (Event N)) (i seq : ℕ) (answer : Option TicketPreviewMetadata)
      → seq < r.preview_request_seq
      → get_elem? (run num msg platform join_path r es).fetches i ≡ some seq
      → let n = run num msg platform join_path r es in
        step num msg platform join_path n (preview_answer i answer)
        ≡ record n { fetches = remove_at i n.fetches }
  unfolding step on_preview
  old_answer-ignored r es i seq answer h e =
      let n = run num msg platform join_path r es in
      let newer : seq < n.preview_request_seq = omega (arith, run-seq r es) in
      rw (e, step) (ground arith)

  abbrev started_after : Receiver N → N → Receiver N
  started_after r t1 =
      render (on_started num msg platform t1 (render (handle_receive msg platform r)))

  started_after-facts :
      (r : Receiver N) (t1 : N)
      → is_empty (trim r.rendered.ticket) ≡ false
      → let n = started_after r t1 in
        ((n.transfer_seq == 0) ≡ false)
        × (n.transfer_start_time_ref ≡ some t1)
        × (n.save_path_ref ≡ r.state.save_path)
  unfolding render on_started handle_receive
  started_after-facts r t1 h = (ground arith, ground arith, ground arith)

  completes :
      (b : Receiver N) (t2 : N) (list : List Text) (t1 : N) (path : Text)
      → (b.transfer_seq == 0) ≡ false
      → b.transfer_start_time_ref ≡ some t1
      → b.save_path_ref ≡ path
      → num.truthy t1 ≡ true
      → let n = on_completed num msg platform t2 (on_file_names num msg platform (some list) b) in
        (n.state.is_completed ≡ true)
        × (n.state.is_transporting ≡ false)
        × (d : TransferMetadata N) × (n.state.transfer_metadata ≡ some d)
        × (d.download_path ≡ some path)
        × (d.duration ≡ num.sub t2 t1)
        × (d.was_stopped ≡ false)
  unfolding on_completed on_file_names received_metadata
  completes b t2 list t1 path z s p k = (
    ground arith,
    ground arith,
    received_metadata num msg platform t2 (on_file_names num msg platform (some list) b),
    ground arith,
    ground arith,
    ground arith,
    ground arith,
  )

  -- A transfer goes through: from a ticket that is not blank and a save path, receiving, the start,
  -- the file names and the completion of the transfer lead to the end screen, whose metadata names
  -- the save path, lasts from the start to the completion and is not marked as stopped.
  pub receive_succeeds :
      (r : Receiver N) (t1 t2 : N) (list : List Text)
      → is_empty (trim r.rendered.ticket) ≡ false
      → num.truthy t1 ≡ true
      → let n =
          run num msg platform join_path r
            (receive ∷ rendered ∷ started t1 ∷ rendered ∷ names (some list) ∷ completed t2 ∷ []) in
        (n.state.is_completed ≡ true)
        × (n.state.is_transporting ≡ false)
        × (d : TransferMetadata N) × (n.state.transfer_metadata ≡ some d)
        × (d.download_path ≡ some r.state.save_path)
        × (d.duration ≡ num.sub t2 t1)
        × (d.was_stopped ≡ false)
  unfolding run on_file_names
  receive_succeeds r t1 t2 list h k =
      let before = started_after r t1 in
      let facts = started_after-facts r t1 h in
      completes before t2 list t1 r.state.save_path facts.0 facts.1 facts.2 k
