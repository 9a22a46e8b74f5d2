-- ===== src/Sender/Tests.antt =====
-- Runs of the sender on small inputs, with whole numbers for the language's.
use alt_sendme.Prelude.{ℕ, ◌≡◌, refl, true, Text, codes, some, [], ◌∷◌, ◌++◌, length}
use alt_sendme.Samples.{whole}
use alt_sendme.Transfer.{file}
use alt_sendme.Sender.Store.{sharing, finished}
use alt_sendme.Sender.Hook.{Session, done, text, broadcast_reset, render, is_current}
use alt_sendme.Sender.Controls.{select_files, start_sharing, share}
use alt_sendme.Sender.Events.{on_started}
use alt_sendme.Sender.Machine.{
  started, completed, transfer_failed, progress, select, start, stop, broadcast, rendered, reply,
  init, resume, step, run,
}
use alt_sendme.Sender.Selection.{Inv, run-init-Inv}
use alt_sendme.Sender.Stopping.{stop-final}
use alt_sendme.Sender.Transfers.{
  ShowsEnd, completed-ShowsEnd, transfer_succeeds, failed-keeps_broadcast, stop-leaves_timer,
}

abbrev same : Text → Text
same k = k

abbrev picked : Session ℕ
picked = run whole same (init 0) (select (codes "/tmp/a.txt" ∷ []) (some file) ∷ rendered ∷ [])

-- The state after a file is picked, its ticket is there and a transfer has started.
abbrev moving : Session ℕ
moving = run whole same picked (start ∷ reply 0 1 (text (codes "T")) ∷ started 2 ∷ rendered ∷ [])

-- The same in broadcast mode.
abbrev casting : Session ℕ
casting =
    run whole same picked
      (start ∷ reply 0 1 (text (codes "T")) ∷ broadcast true ∷ started 2 ∷ rendered ∷ [])

transfer_succeeds_example :
    ShowsEnd whole same
      (record picked.store { ticket = some (codes "T") })
      (run whole same picked
        (start ∷ reply 0 1 (text (codes "T")) ∷ started 2 ∷ completed ∷ reply 0 9 done ∷ []))
unfolding run render select_files init
transfer_succeeds_example =
    transfer_succeeds whole same picked (codes "/tmp/a.txt") [] 1 2 9 (codes "T") refl refl refl
      refl

completed-ShowsEnd_example :
    ShowsEnd whole same moving.store
      (step whole same (step whole same moving completed) (reply 0 9 done))
unfolding run render select_files init start_sharing share on_started resume is_current
completed-ShowsEnd_example = completed-ShowsEnd whole same moving 9 refl refl

failed-keeps_broadcast_example :
    (step whole same casting (transfer_failed 9)).store.view_state ≡ sharing
unfolding run render select_files init start_sharing share on_started resume is_current
failed-keeps_broadcast_example = (failed-keeps_broadcast whole same casting 9 refl refl).0

stop-final_example :
    (run whole same moving (
      stop 5 ∷ (completed ∷ [])
      ++ reply (length moving.pending) 6 done
        ∷ progress (codes "1:2:3")
        ∷ transfer_failed 7
        ∷ [])).store.view_state
    ≡ finished
unfolding run render select_files init start_sharing share on_started resume is_current
stop-final_example =
    (stop-final whole same 5 6 moving (completed ∷ [])
      (progress (codes "1:2:3") ∷ transfer_failed 7 ∷ []) refl refl (tt, tt) (tt, (tt, tt))).2

run-init-Inv_example : Inv (run whole same (init 0) (start ∷ rendered ∷ completed ∷ []))
run-init-Inv_example = run-init-Inv whole same 0 (start ∷ rendered ∷ completed ∷ [])

-- Two seconds after a completion, seen from the moment that its timer is set.
abbrev waiting : Session ℕ
waiting = record casting { pending = broadcast_reset ∷ [] }

stop-leaves_timer_example :
    (step whole same
      (run whole same waiting (stop 9 ∷ reply 1 10 done ∷ []))
      (reply 0 11 done)).store.view_state
    ≡ sharing
unfolding run render select_files init start_sharing share on_started resume
stop-leaves_timer_example = (stop-leaves_timer whole same waiting 9 10 11 refl refl).1
