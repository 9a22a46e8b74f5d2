-- ===== src/Dropping/Consistent.antt =====
-- frontend/src/hooks/useDragDrop.ts: what holds of the hook's state after any events.
use alt_sendme.Prelude.{
  ℕ, ◌-◌, ◌≤◌, ◌≡◌, refl, Bool, true, false, Text, Option, none, some, List, [], ◌∷◌, arith, ltb,
  Option-cases, inl, inr, get_elem?, remove_at,
}
use alt_sendme.Transfer.{PathType}
use alt_sendme.Dropping.State.{
  Platform, web, desktop, android, document, folder, share, Task, checking, selecting, reading_drop,
  opening_files, opening_folder, starting, cancelling, DropZone, is_android, reset_copy,
  trigger_files_select, show_alert, check_path_type, cancel_copy, consume_android_share, run_share,
  set_up_shares, retry_share, share_received, browse_file, browse_folder, web_drag_enter,
  web_drag_leave, web_drop, window_drop, copy_started, copy_completed, close_alert,
}
use alt_sendme.Dropping.Machine.{
  Event, drag_entered, drag_left, dropped_items, window_dropped, window_hovered, window_left,
  copy_begins, copy_goes_on, copy_ends, copy_fails, shares_set_up, shared, retried, browsed_file,
  browsed_folder, cancelled, toggled, closed_dialog, check, reply, Reply, finished, failed, picked,
  dropped, started, nothing_picked, one_path, paths_picked, set_active, fail_copy, on_web, on_tauri,
  on_android, resume, resume_at, step, run, init, select_files, select_folder, Picked,
}

abbrev pub is_web : Platform → Bool
is_web web = true
is_web desktop = false
is_web android = false

pub record Consistent (p : Platform) (d : DropZone) : Type 0 where
  -- in the browser the zone is active exactly while a drag is inside
  pub active : is_web p ≡ true → d.is_drag_active ≡ ltb 0 d.web_drag_depth
  pub native : is_web p ≡ false → d.web_drag_depth ≡ 0
  -- a copy's name and size are shown only while it goes on, and copies are made only on Android
  pub idle : d.is_copying ≡ false → (d.copy_file_name ≡ []) × (d.copy_total_bytes ≡ 0)
  pub only_android : is_android p ≡ false → d.is_copying ≡ false
  -- the effect of the shares
  pub bounded : d.retries ≤ 6

trigger-Consistent :
    (p : Platform) (paths : List Text) (type : Option PathType) (d : DropZone)
    → Consistent p d
    → Consistent p (trigger_files_select paths type d)
unfolding trigger_files_select
trigger-Consistent p [] type d v = v
trigger-Consistent p (path ∷ paths) type d v = ground (arith, v)

reset-Consistent : (p : Platform) (d : DropZone) → Consistent p d → Consistent p (reset_copy d)
unfolding reset_copy
reset-Consistent p d v = ground (arith, v)

consume-Consistent :
    (p : Platform) (d : DropZone) → Consistent p d → Consistent p (consume_android_share d)
unfolding consume_android_share
consume-Consistent p d v = elim (Option-cases d.cancel_ref) [
  | inl e ↦ ground arith
  | inr (job, e) ↦ ground arith
]

run_share-Consistent : (p : Platform) (d : DropZone) → Consistent p d → Consistent p (run_share d)
unfolding run_share
run_share-Consistent p d v = ground (arith, consume-Consistent p d v)

cancel_copy-Consistent :
    (p : Platform) (d : DropZone) → Consistent p d → Consistent p (cancel_copy d)
unfolding cancel_copy reset_copy
cancel_copy-Consistent p d v = elim (Option-cases d.cancel_ref) [
  | inl e ↦ ground arith
  | inr (job, e) ↦ ground arith
]

module _ (t : Text → Text) (p : Platform) where
  files-Consistent :
      (choice : Picked) (d : DropZone) → Consistent p d → Consistent p (select_files t choice d)
  files-Consistent nothing_picked d v = v
  files-Consistent (one_path []) d v = v
  files-Consistent (one_path (c ∷ path)) d v = trigger-Consistent p _ _ d v
  files-Consistent (paths_picked paths) d v = trigger-Consistent p paths _ d v

  folder-Consistent :
      (choice : Picked) (d : DropZone) → Consistent p d → Consistent p (select_folder t choice d)
  folder-Consistent nothing_picked d v = v
  folder-Consistent (one_path []) d v = v
  folder-Consistent (one_path (c ∷ path)) d v = trigger-Consistent p _ _ d v
  folder-Consistent (paths_picked []) d v = v
  folder-Consistent (paths_picked ([] ∷ paths)) d v = v
  folder-Consistent (paths_picked ((c ∷ path) ∷ paths)) d v = trigger-Consistent p _ _ d v

  resume-Consistent :
      (task : Task) (answer : Reply) (d : DropZone)
      → Consistent p d
      → Consistent p (resume t task answer d)
  unfolding resume show_alert
  resume-Consistent reading_drop (dropped paths type) d v = trigger-Consistent p paths type d v
  resume-Consistent opening_files (picked choice) d v = files-Consistent choice d v
  resume-Consistent opening_folder (picked choice) d v = folder-Consistent choice d v
  resume-Consistent (starting document) (started none) d v = v
  resume-Consistent (starting document) (started (some job)) d v = ground (arith, v)
  resume-Consistent (starting folder) (started none) d v = v
  resume-Consistent (starting folder) (started (some job)) d v = ground (arith, v)
  resume-Consistent (starting share) (started none) d v = v
  resume-Consistent (starting share) (started (some job)) d v = ground (arith, v)
  resume-Consistent (starting document) (failed text) d v = ground (arith, v)
  resume-Consistent (starting folder) (failed text) d v = ground (arith, v)
  resume-Consistent (starting share) (failed text) d v = ground (arith, v)
  resume-Consistent (cancelling true) finished d v = ground (arith, reset-Consistent p d v)
  resume-Consistent (cancelling false) finished d v = reset-Consistent p d v
  resume-Consistent (cancelling true) (failed text) d v = ground (arith, reset-Consistent p d v)
  resume-Consistent (cancelling false) (failed text) d v = reset-Consistent p d v
  resume-Consistent checking answer d v = ground (arith, v)
  resume-Consistent selecting answer d v = ground (arith, v)
  resume-Consistent task answer d v = ground (arith, v)

  resume_at-Consistent :
      (o : Option Task) (i : ℕ) (answer : Reply) (d : DropZone)
      → Consistent p d
      → Consistent p (resume_at t o i answer d)
  resume_at-Consistent none i answer d v = v
  resume_at-Consistent (some task) i answer d v =
      let left = record d { pending = remove_at i d.pending } in
      let w : Consistent p left = ground (arith, v) in
      ground (arith, resume-Consistent task answer left w)

web-Consistent :
    (p : Platform) (f : DropZone → DropZone) (d : DropZone)
    → Consistent p d
    → (is_web p ≡ true → Consistent p (f d))
    → Consistent p (on_web p f d)
web-Consistent web f d v h = h refl
web-Consistent desktop f d v h = v
web-Consistent android f d v h = v

tauri-Consistent :
    (p : Platform) (f : DropZone → DropZone) (d : DropZone)
    → Consistent p d
    → (is_web p ≡ false → Consistent p (f d))
    → Consistent p (on_tauri p f d)
tauri-Consistent web f d v h = v
tauri-Consistent desktop f d v h = h refl
tauri-Consistent android f d v h = h refl

android-Consistent :
    (p : Platform) (f : DropZone → DropZone) (d : DropZone)
    → Consistent p d
    → (is_android p ≡ true → Consistent p (f d))
    → Consistent p (on_android p f d)
android-Consistent web f d v h = v
android-Consistent desktop f d v h = v
android-Consistent android f d v h = h refl

step-Consistent :
    (t : Text → Text) (p : Platform) (d : DropZone) (e : Event)
    → Consistent p d
    → Consistent p (step t p d e)
unfolding step show_alert check_path_type reset_copy copy_started copy_completed close_alert
    set_up_shares retry_share share_received browse_file browse_folder web_drag_enter web_drag_leave
    web_drop window_drop
step-Consistent t p d drag_entered v =
    web-Consistent p web_drag_enter d v (λ h. ground (arith, v, h))
step-Consistent t p d drag_left v = web-Consistent p web_drag_leave d v (λ h. ground (arith, v, h))
step-Consistent t p d dropped_items v = web-Consistent p web_drop d v (λ h. ground (arith, v, h))
step-Consistent t p d (window_dropped paths) v = tauri-Consistent p (window_drop paths) d v (λ h.
    trigger-Consistent p paths none (record d { is_drag_active = false }) (ground (arith, v, h)))
step-Consistent t p d window_hovered v =
    tauri-Consistent p (set_active t true) d v (λ h. ground (arith, v, h))
step-Consistent t p d window_left v =
    tauri-Consistent p (set_active t false) d v (λ h. ground (arith, v, h))
step-Consistent t p d (copy_begins path size) v =
    android-Consistent p (copy_started path size) d v (λ h. ground (arith, v, h))
step-Consistent t p d (copy_goes_on progress) v =
    android-Consistent p (λ d. record d { copy_progress = progress }) d v
      (λ h. ground (arith, v, h))
step-Consistent t p d (copy_ends path source) v =
    android-Consistent p (copy_completed path source) d v
      (λ h. trigger-Consistent p (path ∷ []) _ (reset_copy d) (reset-Consistent p d v))
step-Consistent t p d (copy_fails text) v =
    android-Consistent p (fail_copy t text) d v (λ h. ground (arith, v, h))
step-Consistent t p d shares_set_up v = android-Consistent p set_up_shares d v (λ h.
    run_share-Consistent p (record d { is_listening = true; retries = 6 }) (ground (arith, v, h)))
step-Consistent t p d shared v =
    android-Consistent p share_received d v (λ h. ground (arith, v, run_share-Consistent p d v))
step-Consistent t p d retried v = android-Consistent p retry_share d v (λ h.
    ground
      (arith, v, run_share-Consistent p (record d { retries = d.retries - 1 }) (ground (arith, v))))
step-Consistent t p d browsed_file v = ground (arith, v)
step-Consistent t p d browsed_folder v = ground (arith, v)
step-Consistent t p d cancelled v = cancel_copy-Consistent p d v
step-Consistent t p d toggled v = ground (arith, v)
step-Consistent t p d closed_dialog v = ground (arith, v)
step-Consistent t p d (check none) v = ground (arith, v)
step-Consistent t p d (check (some type)) v = ground (arith, v)
step-Consistent t p d (reply i answer) v =
    resume_at-Consistent t p (get_elem? d.pending i) i answer d v

run-Consistent :
    (t : Text → Text) (p : Platform) (d : DropZone) (es : List Event)
    → Consistent p d
    → Consistent p (run t p d es)
unfolding run
run-Consistent t p d [] v = v
run-Consistent t p d (e ∷ es) v = run-Consistent t p (step t p d e) es (step-Consistent t p d e v)

init-Consistent : (p : Platform) → Consistent p init
init-Consistent web = ground arith
init-Consistent desktop = ground arith
init-Consistent android = ground arith

-- After any events since the component was mounted: in the browser the zone is active exactly while
-- the depth of the drags, which every enter raises, every leave lowers and a drop sets to 0, is
-- positive, and elsewhere drags are not counted; a copy's name and size are shown only while it goes
-- on, which happens only on Android; and at most six timers are left that look for a share.
pub run-init-Consistent :
    (t : Text → Text) (p : Platform) (es : List Event) → Consistent p (run t p init es)
run-init-Consistent t p es = run-Consistent t p init es (init-Consistent p)
