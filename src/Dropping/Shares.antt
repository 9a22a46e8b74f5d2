-- ===== src/Dropping/Shares.antt =====
-- frontend/src/hooks/useDragDrop.ts: the shares that come after one was taken over.
use alt_sendme.Prelude.{
  ℕ, ◌≡◌, refl, true, false, Text, Option, none, some, List, [], ◌∷◌, arith, Option-cases, inl, inr,
  get_elem?, remove_at,
}
use alt_sendme.Transfer.{PathType}
use alt_sendme.Dropping.State.{
  Platform, web, desktop, android, document, folder, share, Task, checking, selecting, reading_drop,
  opening_files, opening_folder, starting, cancelling, DropZone, type_of, reset_copy,
  trigger_files_select, show_alert, check_path_type, cancel_copy, consume_android_share, run_share,
  set_up_shares, retry_share, share_received, browse_file, browse_folder, web_drag_enter,
  web_drag_leave, web_drop, window_drop, copy_started, copy_completed, close_alert,
}
use alt_sendme.Dropping.Machine.{
  Event, window_dropped, copy_ends, shared, cancelled, reply, Reply, finished, failed, picked,
  dropped, started, nothing_picked, one_path, paths_picked, resume, resume_at, step, run,
  select_files, select_folder, Picked, on_android,
}

abbrev IsSettled : DropZone → Type 0
IsSettled d = d.settled ≡ true

trigger-IsSettled :
    (paths : List Text) (type : Option PathType) (d : DropZone)
    → IsSettled d
    → IsSettled (trigger_files_select paths type d)
unfolding trigger_files_select
trigger-IsSettled [] type d v = v
trigger-IsSettled (path ∷ paths) type d v = v

consume-IsSettled : (d : DropZone) → IsSettled d → IsSettled (consume_android_share d)
unfolding consume_android_share
consume-IsSettled d v = elim (Option-cases d.cancel_ref) [
  | inl e ↦ ground arith
  | inr (job, e) ↦ ground arith
]

cancel_copy-IsSettled : (d : DropZone) → IsSettled d → IsSettled (cancel_copy d)
unfolding cancel_copy reset_copy
cancel_copy-IsSettled d v = elim (Option-cases d.cancel_ref) [
  | inl e ↦ ground arith
  | inr (job, e) ↦ ground arith
]

module _ (t : Text → Text) where
  files-IsSettled :
      (choice : Picked) (d : DropZone) → IsSettled d → IsSettled (select_files t choice d)
  files-IsSettled nothing_picked d v = v
  files-IsSettled (one_path []) d v = v
  files-IsSettled (one_path (c ∷ path)) d v = trigger-IsSettled _ _ d v
  files-IsSettled (paths_picked paths) d v = trigger-IsSettled paths _ d v

  folder-IsSettled :
      (choice : Picked) (d : DropZone) → IsSettled d → IsSettled (select_folder t choice d)
  folder-IsSettled nothing_picked d v = v
  folder-IsSettled (one_path []) d v = v
  folder-IsSettled (one_path (c ∷ path)) d v = trigger-IsSettled _ _ d v
  folder-IsSettled (paths_picked []) d v = v
  folder-IsSettled (paths_picked ([] ∷ paths)) d v = v
  folder-IsSettled (paths_picked ((c ∷ path) ∷ paths)) d v = trigger-IsSettled _ _ d v

  resume-IsSettled :
      (task : Task) (answer : Reply) (d : DropZone)
      → IsSettled d
      → IsSettled (resume t task answer d)
  unfolding resume show_alert
  resume-IsSettled reading_drop (dropped paths type) d v = trigger-IsSettled paths type d v
  resume-IsSettled opening_files (picked choice) d v = files-IsSettled choice d v
  resume-IsSettled opening_folder (picked choice) d v = folder-IsSettled choice d v
  resume-IsSettled (starting document) (started none) d v = v
  resume-IsSettled (starting document) (started (some job)) d v = v
  resume-IsSettled (starting folder) (started none) d v = v
  resume-IsSettled (starting folder) (started (some job)) d v = v
  resume-IsSettled (starting share) (started none) d v = v
  resume-IsSettled (starting share) (started (some job)) d v = refl
  resume-IsSettled (starting document) (failed text) d v = v
  resume-IsSettled (starting folder) (failed text) d v = v
  resume-IsSettled (starting share) (failed text) d v = v
  resume-IsSettled (cancelling true) finished d v = ground (arith, v)
  resume-IsSettled (cancelling false) finished d v = ground (arith, v)
  resume-IsSettled (cancelling true) (failed text) d v = ground (arith, v)
  resume-IsSettled (cancelling false) (failed text) d v = ground (arith, v)
  resume-IsSettled checking answer d v = ground (arith, v)
  resume-IsSettled selecting answer d v = ground (arith, v)
  resume-IsSettled task answer d v = ground (arith, v)

  resume_at-IsSettled :
      (o : Option Task) (i : ℕ) (answer : Reply) (d : DropZone)
      → IsSettled d
      → IsSettled (resume_at t o i answer d)
  resume_at-IsSettled none i answer d v = v
  resume_at-IsSettled (some task) i answer d v =
      ground
        (arith, v, resume-IsSettled task answer (record d { pending = remove_at i d.pending }) v)

  android_only-IsSettled :
      (p : Platform) (f : DropZone → DropZone) (d : DropZone)
      → IsSettled d
      → IsSettled (f d)
      → IsSettled (on_android p f d)
  android_only-IsSettled web f d v w = v
  android_only-IsSettled desktop f d v w = v
  android_only-IsSettled android f d v w = w

  step-IsSettled :
      (p : Platform) (d : DropZone) (e : Event) → IsSettled d → IsSettled (step t p d e)
  unfolding step show_alert check_path_type reset_copy copy_started copy_completed close_alert
      set_up_shares retry_share share_received browse_file browse_folder web_drag_enter
      web_drag_leave web_drop window_drop run_share
  step-IsSettled web d (window_dropped paths) v = v
  step-IsSettled desktop d (window_dropped paths) v = trigger-IsSettled paths none _ v
  step-IsSettled android d (window_dropped paths) v = trigger-IsSettled paths none _ v
  step-IsSettled p d (copy_ends path source) v =
      android_only-IsSettled p (copy_completed path source) d v
        (trigger-IsSettled (path ∷ []) (some (type_of source)) (reset_copy d) v)
  step-IsSettled p d cancelled v = cancel_copy-IsSettled d v
  step-IsSettled p d (reply i answer) v = resume_at-IsSettled (get_elem? d.pending i) i answer d v
  step-IsSettled web d e v = ground (arith, v)
  step-IsSettled desktop d e v = ground (arith, v)
  step-IsSettled android d e v = ground (arith, v)

  run-IsSettled :
      (p : Platform) (d : DropZone) (es : List Event) → IsSettled d → IsSettled (run t p d es)
  unfolding run
  run-IsSettled p d [] v = v
  run-IsSettled p d (e ∷ es) v = run-IsSettled p (step t p d e) es (step-IsSettled p d e v)

  took_share-IsSettled :
      (d : DropZone) (i job : ℕ)
      → get_elem? d.pending i ≡ some (starting share)
      → IsSettled (step t android d (reply i (started (some job))))
  unfolding step resume
  took_share-IsSettled d i job e = rw (e) refl

shared_settled : (t : Text → Text) (d : DropZone) → IsSettled d → step t android d shared ≡ d
unfolding step share_received run_share
shared_settled t d v = ground (arith, v)

-- Shares after the first are lost: on Android, once the copy of a share has been begun with a job,
-- then after any further events a share that arrives changes nothing: no copy is asked for. The
-- component is not mounted again in between.
pub share_is_lost :
    (t : Text → Text) (d : DropZone) (i job : ℕ) (es : List Event)
    → get_elem? d.pending i ≡ some (starting share)
    → let later = run t android (step t android d (reply i (started (some job)))) es in
      step t android later shared ≡ later
share_is_lost t d i job es e =
    let later = run t android (step t android d (reply i (started (some job)))) es in
    let settled =
      run-IsSettled t android (step t android d (reply i (started (some job)))) es
        (took_share-IsSettled t d i job e) in
    shared_settled t later settled
