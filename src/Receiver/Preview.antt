-- ===== src/Receiver/Preview.antt =====
-- The preview of a ticket: the answer of an old request is never shown, and the loading mark stands
-- only while an answer can still come.
use alt_sendme.Prelude.{
  ℕ, zero, suc, ◌≤◌, ◌≡◌, refl, ◌≢◌, Bool, true, false, ◌&&◌, ◌||◌, Text, Option, none, some, List,
  [], ◌∷◌, ◌++◌, ◌==◌, any, arith, Bool-cases, Option-cases, get_elem?, remove_at, inl, inr, split,
  length,
}
use alt_sendme.Transfer.{Numbers}
use alt_sendme.Sender.Selection.{three_parts-elim, length-add_sample}
use alt_sendme.Receiver.State.{
  TicketPreviewMetadata, Platform, Messages, Task, download_dir, browse, Receiver, fire, render,
  on_preview_timer, on_preview, close_alert,
}
use alt_sendme.Receiver.Events.{
  Conflict, Fallback, on_started, on_progress, on_file_names, on_fallback, on_conflicts,
  on_completed, while_active, take_progress, record_progress,
}
use alt_sendme.Receiver.Controls.{
  PairedInvite, change_ticket, handle_receive, receive_with, found_folder, fail_receive,
  accept_invite, reset, initialize, browse_folder, browsed, fail_browse, open_received, open_path,
  fail_open,
}
use alt_sendme.Receiver.Machine.{
  Reply, folder, Event, started, completed, progress, names, fallback, conflicts, receive,
  new_transfer, open_result, accept, rendered, preview_due, preview_answer, reply, init, resume,
  step, run,
}

abbrev holds : ℕ → List ℕ → Bool
holds n = any (λ k. k == n)

abbrev timer_is : ℕ → Option (ℕ × Text) → Bool
timer_is n none = false
timer_is n (some (k, ticket)) = k == n

holds-append : (n k : ℕ) (ks : List ℕ) → holds n (ks ++ k ∷ []) ≡ holds n ks || (k == n)
holds-append n k [] = ground arith
holds-append n k (j ∷ ks) = ground (arith, holds-append n k ks)

holds-remove_at :
    (n k i : ℕ) (ks : List ℕ)
    → get_elem? ks i ≡ some k
    → k ≢ n
    → holds n ks ≡ true
    → holds n (remove_at i ks) ≡ true
holds-remove_at n k i [] e d h = cc
holds-remove_at n k zero (j ∷ ks) e d h = ground (arith)
holds-remove_at n k (suc i) (j ∷ ks) e d h = ground (arith, holds-remove_at n k i ks e d)

module _ {N : Type 0} where
  pub record Settled (r : Receiver N) : Type 0 where
    -- a preview that is loading has its timer or its request still running
    pub loading :
        r.state.is_preview_loading ≡ true
        → (timer_is r.preview_request_seq r.preview_timer || holds r.preview_request_seq r.fetches)
          ≡ true
    pub exclusive : (r.state.is_transporting && r.state.is_completed) ≡ false
    pub few_samples : length r.speeds ≤ 10

module _ {N : Type 0} (num : Numbers N) (msg : Messages) (platform : Platform)
    (join_path : Text → Text → Option Text) where
  render-Settled : (r : Receiver N) → Settled r → Settled (render r)
  unfolding render
  render-Settled r v = ground arith

  fire-Settled :
      (t : Option (ℕ × Text)) (r : Receiver N)
      → r.preview_timer ≡ t
      → Settled r
      → Settled (fire t r)
  fire-Settled none r e v = v
  fire-Settled (some (k, ticket)) r e v = record {
    loading = ground (arith, holds-append r.preview_request_seq k r.fetches, v.loading);
    exclusive = v.exclusive;
    few_samples = v.few_samples;
  }

  on_preview_timer-Settled : (r : Receiver N) → Settled r → Settled (on_preview_timer r)
  unfolding on_preview_timer
  on_preview_timer-Settled r v = fire-Settled r.preview_timer r refl v

  preview_answer-Settled :
      (r : Receiver N) (i seq : ℕ) (answer : Option TicketPreviewMetadata)
      → get_elem? r.fetches i ≡ some seq
      → Settled r
      → Settled (on_preview seq answer (record r { fetches = remove_at i r.fetches }))
  unfolding on_preview
  preview_answer-Settled r i seq answer e v = elim (Bool-cases (r.preview_request_seq == seq)) [
    | inl same ↦
        rw (same, on_preview)
          (record { loading = λ h. cc; exclusive = v.exclusive; few_samples = v.few_samples })
    | inr other ↦
        rw (other, on_preview)
          (record {
            loading = λ h.
                ground
                  (arith, v.loading h, holds-remove_at r.preview_request_seq seq i r.fetches e);
            exclusive = v.exclusive;
            few_samples = v.few_samples;
          })
  ]

  -- An event that is dropped or handled keeps the invariant if its handler does.
  while_active-Settled :
      (f : Receiver N → Receiver N) (r : Receiver N)
      → Settled r
      → Settled (f r)
      → Settled (while_active num msg platform f r)
  while_active-Settled f r v w = ground arith

  on_started-Settled :
      (now : N) (r : Receiver N) → Settled r → Settled (on_started num msg platform now r)
  unfolding on_started
  on_started-Settled now r v = ground arith

  on_completed-Settled :
      (now : N) (r : Receiver N) → Settled r → Settled (on_completed num msg platform now r)
  unfolding on_completed
  on_completed-Settled now r v = ground arith

  record_progress-Settled :
      (r : Receiver N) (a b c : N) → Settled r → Settled (record_progress num msg platform r a b c)
  record_progress-Settled r a b c v = record {
    loading = v.loading;
    exclusive = v.exclusive;
    few_samples = length-add_sample r.speeds c v.few_samples;
  }

  on_progress-Settled :
      (payload : Text) (r : Receiver N)
      → Settled r
      → Settled (on_progress num msg platform payload r)
  unfolding on_progress
  on_progress-Settled payload r v =
      while_active-Settled (take_progress num msg platform payload) r v (
        three_parts-elim Settled (split b':' payload) _ r
          (λ a b c.
            record_progress-Settled r (num.parse_int a) (num.parse_int b)
              (num.div (num.parse_int c) num.thousand) v)
          v)

  on_file_names-Settled :
      (list : Option (List Text)) (r : Receiver N)
      → Settled r
      → Settled (on_file_names num msg platform list r)
  unfolding on_file_names
  on_file_names-Settled list r v = ground arith

  on_conflicts-Settled :
      (list : Option (List Conflict)) (r : Receiver N)
      → Settled r
      → Settled (on_conflicts num msg platform list r)
  unfolding on_conflicts
  on_conflicts-Settled none r v = ground arith
  on_conflicts-Settled (some []) r v = ground arith
  on_conflicts-Settled (some (c ∷ cs)) r v = ground arith

  on_fallback-Settled :
      (payload : Fallback) (r : Receiver N)
      → Settled r
      → Settled (on_fallback num msg platform payload r)
  unfolding on_fallback
  on_fallback-Settled payload r v = ground arith

  receive_with-Settled :
      (ticket : Text) (r : Receiver N) → Settled r → Settled (receive_with msg platform ticket r)
  unfolding receive_with
  receive_with-Settled ticket r v = ground arith

  accept_invite-Settled :
      (invite : PairedInvite) (r : Receiver N)
      → Settled r
      → Settled (accept_invite msg platform invite r)
  unfolding accept_invite
  accept_invite-Settled invite r v = ground arith

  reset-Settled : (r : Receiver N) → Settled r → Settled (reset msg platform r)
  unfolding reset
  reset-Settled r v = ground arith

  open_path-Settled :
      (path : Option Text) (r : Receiver N) → Settled r → Settled (open_path msg platform path r)
  open_path-Settled path r v = ground arith

  open_received-Settled :
      (r : Receiver N) → Settled r → Settled (open_received msg platform join_path r)
  unfolding open_received
  open_received-Settled r v = ground arith

  resume-Settled :
      (task : Task) (answer : Reply) (r : Receiver N)
      → Settled r
      → Settled (resume num msg platform join_path task answer r)
  unfolding resume found_folder fail_receive fail_browse browsed fail_open
  resume-Settled (download_dir ticket) (folder (some path) uri) r v = ground arith
  resume-Settled browse (folder (some path) uri) r v = ground arith
  resume-Settled task answer r v = ground arith

  step-Settled :
      (r : Receiver N) (e : Event N) → Settled r → Settled (step num msg platform join_path r e)
  unfolding step change_ticket handle_receive browse_folder initialize close_alert
  step-Settled r (started now) v = on_started-Settled now r v
  step-Settled r (completed now) v = on_completed-Settled now r v
  step-Settled r (progress payload) v = on_progress-Settled payload r v
  step-Settled r (names list) v = on_file_names-Settled list r v
  step-Settled r (fallback payload) v = on_fallback-Settled payload r v
  step-Settled r (conflicts list) v = on_conflicts-Settled list r v
  step-Settled r receive v = receive_with-Settled r.rendered.ticket r v
  step-Settled r new_transfer v = reset-Settled r v
  step-Settled r open_result v = open_received-Settled r v
  step-Settled r (accept invite) v = accept_invite-Settled invite r v
  step-Settled r rendered v = render-Settled r v
  step-Settled r preview_due v = on_preview_timer-Settled r v
  step-Settled r (preview_answer i answer) v = elim (Option-cases (get_elem? r.fetches i)) [
    | inl e ↦ rw (e, step) v
    | inr (seq, e) ↦ rw (e, step) (preview_answer-Settled r i seq answer e v)
  ]
  step-Settled r (reply i answer) v = elim (Option-cases (get_elem? r.pending i)) [
    | inl e ↦ rw (e, step) v
    | inr (task, e) ↦
        rw (e, step)
          (resume-Settled task answer _
            (record { loading = v.loading; exclusive = v.exclusive; few_samples = v.few_samples }))
  ]
  step-Settled r e v = ground arith

  run-Settled :
      (r : Receiver N) (es : List (Event N))
      → Settled r
      → Settled (run num msg platform join_path r es)
  unfolding run
  run-Settled r [] v = v
  run-Settled r (e ∷ es) v =
      run-Settled (step num msg platform join_path r e) es (step-Settled r e v)

  -- After any events from the start: while a preview is marked as loading, the timer or the request
  -- with the latest number is still running, so the mark does not get stuck; a transfer is not
  -- running and completed at once; and the speed average is over ten samples at most.
  pub run-init-Settled : (es : List (Event N)) → Settled (run num msg platform join_path init es)
  unfolding init
  run-init-Settled es =
      run-Settled init es
        (record { loading = λ h. cc; exclusive = refl; few_samples = omega arith })
