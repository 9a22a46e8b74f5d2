-- ===== src/Sender/Selection.antt =====
-- What holds of the sender's selection and of its speed samples in every state.
use alt_sendme.Prelude.{
  ◌≤◌, ◌≡◌, refl, Bool, true, false, Text, text_eq, text_eq_iff, Option, List, [], ◌∷◌, ◌++◌, arith,
  Bool-cases, Option-cases, get_elem?, inl, inr, split, add, contains, head?, length, length-append,
}
use alt_sendme.Transfer.{Numbers, PathType}
use alt_sendme.Eta.{add_sample}
use alt_sendme.Sender.Store.{Store, add_all, dedupe, without, remove_selected_path, set_path_type}
use alt_sendme.Sender.Hook.{
  Task, after_completion, stop_request, Reply, done, Session, render, on_timer,
}
use alt_sendme.Sender.Events.{
  three_parts, record_progress, can_accept_progress, on_progress, on_active_count, on_started,
  on_completed, complete, resolve_size, reset_broadcast, on_failed,
}
use alt_sendme.Sender.Controls.{
  retype, select_files, clear_selected, remove_path, resolve_type, start_sharing, share, fail_share,
  stop_sharing, finish_stop, fail_stop, copy_ticket, copied, fail_copy,
}
use alt_sendme.Sender.Machine.{
  Event, active_count, progress, started, transfer_failed, completed, select, remove, start, stop,
  rendered, tick, reply, init, resume, step, run,
}

-- No text stands twice.
abbrev pub IsDistinct : List Text → Type 0
IsDistinct [] = Unit
IsDistinct (p ∷ ps) = (contains p ps ≡ false) × IsDistinct ps

contains-append :
    (k p : Text) (ps : List Text)
    → contains k ps ≡ false
    → text_eq p k ≡ false
    → contains k (ps ++ p ∷ []) ≡ false
unfolding contains
contains-append k p [] h e = ground arith
contains-append k p (q ∷ qs) h e = ground (arith, contains-append k p qs)

text_eq_comm : (a b : Text) → text_eq a b ≡ text_eq b a
text_eq_comm a b = ground (arith, text_eq_iff a b, text_eq_iff b a)

IsDistinct-append :
    (k : Text) (ps : List Text) → IsDistinct ps → contains k ps ≡ false → IsDistinct (ps ++ k ∷ [])
unfolding contains
IsDistinct-append k [] d h = (refl, tt)
IsDistinct-append k (p ∷ ps) (d, ds) h =
    ground (arith, IsDistinct-append k ps ds, contains-append p k ps d, text_eq_comm k p)

add-IsDistinct : (k : Text) (ps : List Text) → IsDistinct ps → IsDistinct (add k ps)
unfolding add
add-IsDistinct k ps d = ground (arith, IsDistinct-append k ps d)

add_all-IsDistinct : (ps new : List Text) → IsDistinct ps → IsDistinct (add_all ps new)
unfolding add_all
add_all-IsDistinct ps [] d = d
add_all-IsDistinct ps (k ∷ ks) d = add_all-IsDistinct (add k ps) ks (add-IsDistinct k ps d)

dedupe-IsDistinct : (old new : List Text) → IsDistinct (dedupe old new)
unfolding dedupe
dedupe-IsDistinct old new = add_all-IsDistinct (add_all [] old) new (add_all-IsDistinct [] old tt)

contains-without :
    (k p : Text) (ps : List Text) → contains k ps ≡ false → contains k (without p ps) ≡ false
unfolding contains without
contains-without k p [] h = refl
contains-without k p (q ∷ qs) h = ground (arith, contains-without k p qs)

without-IsDistinct : (p : Text) (ps : List Text) → IsDistinct ps → IsDistinct (without p ps)
unfolding without
without-IsDistinct p [] d = tt
without-IsDistinct p (q ∷ qs) (d, ds) =
    ground (arith, without-IsDistinct p qs ds, contains-without q p qs d)

pub length-add_sample {ℓ} :
    {A : Type ℓ} (xs : List A) (x : A) → length xs ≤ 10 → length (add_sample xs x) ≤ 10
unfolding add_sample
length-add_sample [] x h = ground arith
length-add_sample (y ∷ xs) x h = ground (arith, length-append (y ∷ xs) (x ∷ []))

module _ {N : Type 0} where
  pub record Inv (m : Session N) : Type 0 where
    pub first : m.store.selected_path ≡ head? m.store.selected_paths
    pub distinct : IsDistinct m.store.selected_paths
    pub few_samples : length m.speeds ≤ 10

-- Whatever holds of both results holds of the one that is taken.
pub three_parts-elim {ℓ κ} :
    {A : Type ℓ} (P : A → Type κ) (parts : List Text) (f : Text → Text → Text → A) (other : A)
    → ((a b c : Text) → P (f a b c))
    → P other
    → P (three_parts parts f other)
three_parts-elim P [] f other h k = k
three_parts-elim P (a ∷ []) f other h k = k
three_parts-elim P (a ∷ b ∷ []) f other h k = k
three_parts-elim P (a ∷ b ∷ c ∷ []) f other h k = h a b c
three_parts-elim P (a ∷ b ∷ c ∷ d ∷ ps) f other h k = k

retype-Inv : {N : Type 0} (ps : List Text) (m : Session N) → Inv m → Inv (retype ps m)
unfolding set_path_type
retype-Inv [] m v = record { first = v.first; distinct = v.distinct; few_samples = v.few_samples }
retype-Inv (p ∷ []) m v = record {
  first = v.first;
  distinct = v.distinct;
  few_samples = v.few_samples;
}
retype-Inv (p ∷ q ∷ ps) m v = record {
  first = v.first;
  distinct = v.distinct;
  few_samples = v.few_samples;
}

module _ {N : Type 0} (num : Numbers N) (t : Text → Text) where
  on_started-Inv : (now : N) (m : Session N) → Inv m → Inv (on_started num now m)
  unfolding on_started
  on_started-Inv now m v = ground arith

  on_failed-Inv : (now : N) (m : Session N) → Inv m → Inv (on_failed num now m)
  unfolding on_failed
  on_failed-Inv now m v = ground arith

  record_progress-Inv : (m : Session N) (a b c : N) → Inv m → Inv (record_progress num m a b c)
  record_progress-Inv m a b c v = record {
    first = v.first;
    distinct = v.distinct;
    few_samples = length-add_sample m.speeds c v.few_samples;
  }

  on_progress-Inv : (payload : Text) (m : Session N) → Inv m → Inv (on_progress num payload m)
  unfolding on_progress
  on_progress-Inv payload m v = elim (Bool-cases (can_accept_progress num m)) [
    | inl accepted ↦
        rw (accepted, on_progress)
          (three_parts-elim Inv (split b':' payload) _ m (λ a b c. record_progress-Inv m _ _ _ v) v)
    | inr refused ↦ rw (refused, on_progress) v
  ]

  on_active_count-Inv :
      (payload : Text) (m : Session N) → Inv m → Inv (on_active_count num payload m)
  unfolding on_active_count
  on_active_count-Inv payload m v = ground arith

  on_completed-Inv : (m : Session N) → Inv m → Inv (on_completed num m)
  unfolding on_completed
  on_completed-Inv m v = ground arith

  complete-Inv : (old : Store N) (now : N) (m : Session N) → Inv m → Inv (complete num old now m)
  unfolding complete
  complete-Inv old now m v = ground arith

  select_files-Inv :
      (paths : List Text) (provided : Option PathType) (m : Session N)
      → Inv m
      → Inv (select_files num t paths provided m)
  unfolding select_files
  select_files-Inv [] provided m v = ground (arith, dedupe-IsDistinct m.store.selected_paths [])
  select_files-Inv (p ∷ ps) provided m v =
      ground (arith, dedupe-IsDistinct m.store.selected_paths (p ∷ ps))

  remove_path-Inv : (path : Text) (m : Session N) → Inv m → Inv (remove_path num t path m)
  unfolding remove_path
  remove_path-Inv path m v =
      retype-Inv (remove_selected_path path m.store).selected_paths _ (record {
        first = refl;
        distinct = without-IsDistinct path m.store.selected_paths v.distinct;
        few_samples = v.few_samples;
      })

  start_sharing-Inv : (m : Session N) → Inv m → Inv (start_sharing num t m)
  unfolding start_sharing
  start_sharing-Inv m v = ground arith

  stop_sharing-Inv : (now : N) (m : Session N) → Inv m → Inv (stop_sharing num t now m)
  unfolding stop_sharing
  stop_sharing-Inv now m v = ground arith

  finish_stop-Inv : (to_idle : Bool) (m : Session N) → Inv m → Inv (finish_stop num t to_idle m)
  unfolding finish_stop
  finish_stop-Inv true m v = ground arith
  finish_stop-Inv false m v = ground arith

  render-Inv : (m : Session N) → Inv m → Inv (render m)
  unfolding render
  render-Inv m v = ground arith

  on_timer-Inv : (m : Session N) → Inv m → Inv (on_timer m)
  unfolding on_timer
  on_timer-Inv m v = ground arith

  resume-Inv :
      (task : Task N) (now : N) (answer : Reply N) (m : Session N)
      → Inv m
      → Inv (resume num t task now answer m)
  unfolding resume resolve_size reset_broadcast share fail_share fail_stop resolve_type copied
      fail_copy
  resume-Inv (after_completion old) now done m v = complete-Inv old now m v
  resume-Inv (stop_request to_idle) now done m v = finish_stop-Inv to_idle m v
  resume-Inv task now answer m v = ground arith

  -- Every step keeps the selection in order and at most ten samples.
  step-Inv : (m : Session N) (e : Event N) → Inv m → Inv (step num t m e)
  unfolding step clear_selected copy_ticket
  step-Inv m (progress payload) v = on_progress-Inv payload m v
  step-Inv m (active_count payload) v = on_active_count-Inv payload m v
  step-Inv m (started now) v = on_started-Inv now m v
  step-Inv m (transfer_failed now) v = on_failed-Inv now m v
  step-Inv m completed v = on_completed-Inv m v
  step-Inv m (select paths provided) v = select_files-Inv paths provided m v
  step-Inv m (remove path) v = remove_path-Inv path m v
  step-Inv m start v = start_sharing-Inv m v
  step-Inv m (stop now) v = stop_sharing-Inv now m v
  step-Inv m rendered v = render-Inv m v
  step-Inv m tick v = on_timer-Inv m v
  step-Inv m (reply i now answer) v = elim (Option-cases (get_elem? m.pending i)) [
    | inl e ↦ rw (e, step) v
    | inr (task, e) ↦
        rw (e, step)
          (resume-Inv task now answer _
            (record { first = v.first; distinct = v.distinct; few_samples = v.few_samples }))
  ]
  step-Inv m e v = ground arith

  run-Inv : (m : Session N) (es : List (Event N)) → Inv m → Inv (run num t m es)
  unfolding run
  run-Inv m [] v = v
  run-Inv m (e ∷ es) v = run-Inv (step num t m e) es (step-Inv m e v)

  -- After any events from the start, the selected path is the first of the selected paths, no path
  -- is selected twice, and the speed average is over ten samples at most.
  pub run-init-Inv : (zero : N) (es : List (Event N)) → Inv (run num t (init zero) es)
  unfolding init
  run-init-Inv zero es =
      run-Inv (init zero) es (record { first = refl; distinct = tt; few_samples = omega arith })
