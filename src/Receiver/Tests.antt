-- ===== src/Receiver/Tests.antt =====
-- Runs of the receiver on small inputs.
use alt_sendme.Prelude.{
  ℕ, ◌≡◌, refl, true, false, Text, codes, Option, none, some, List, [], ◌∷◌, ◌++◌, remove_at, trim,
  text_eq, arith,
}
use alt_sendme.Samples.{whole}
use alt_sendme.Receiver.Paths.{count_top_level_items, resolve_reveal_path}
use alt_sendme.Receiver.State.{Platform, Messages, Receiver, render, on_preview_timer}
use alt_sendme.Receiver.Controls.{change_ticket}
use alt_sendme.Receiver.Machine.{
  Event, started, completed, progress, names, type_ticket, receive, new_transfer, rendered,
  preview_due, preview_answer, init, step, run,
}
use alt_sendme.Receiver.Preview.{Settled, run-init-Settled}
use alt_sendme.Receiver.Sequence.{old_answer-ignored, receive_succeeds}
use alt_sendme.Receiver.Resetting.{reset-silences, reset-forgets_old}

abbrev words : Messages
words = record { plain = λ k. k; counted = λ k n. k; with_path = λ k p. k ++ p }

abbrev desktop : Platform
desktop = record { is_web = false; is_android = false }

abbrev join_path : Text → Text → Option Text
join_path a b = some (a ++ b'/' ∷ b)

abbrev go : Receiver ℕ → List (Event ℕ) → Receiver ℕ
go = run whole words desktop join_path

-- A ticket is typed.
abbrev typed : Receiver ℕ
typed = go init (type_ticket (codes " T ") ∷ rendered ∷ [])

top_level : count_top_level_items (codes "a/x" ∷ codes "a\\y" ∷ codes "/b/c" ∷ []) ≡ 2
unfolding count_top_level_items text_eq
top_level = refl

revealed :
    resolve_reveal_path join_path (codes "/d") (codes "a/x" ∷ codes "a/y" ∷ [])
    ≡ some (codes "/d/a")
unfolding resolve_reveal_path text_eq
revealed = refl

run-init-Settled_example : Settled (go init (type_ticket (codes "T") ∷ rendered ∷ preview_due ∷ []))
run-init-Settled_example =
    run-init-Settled whole words desktop join_path
      (type_ticket (codes "T") ∷ rendered ∷ preview_due ∷ [])

reset-silences_example :
    (go typed (new_transfer ∷ completed 3 ∷ progress (codes "1:2:3") ∷ [])).state.is_completed
    ≡ false
reset-silences_example =
    (reset-silences whole words desktop join_path typed
      (completed 3 ∷ progress (codes "1:2:3") ∷ []) (tt, (tt, tt))).3

reset-forgets_old_example :
    (step whole words desktop join_path
      (go typed (receive ∷ rendered ∷ started 2 ∷ rendered ∷ new_transfer ∷ []))
      (completed 5))
    ≡ go typed (receive ∷ rendered ∷ started 2 ∷ rendered ∷ new_transfer ∷ [])
unfolding run trim init change_ticket render text_eq
reset-forgets_old_example =
    (reset-forgets_old whole words desktop join_path typed (codes "U") 2 5 refl refl).1

-- A first request runs when the ticket changes again.
abbrev asked_twice : Receiver ℕ
asked_twice = go typed (preview_due ∷ type_ticket (codes "TU") ∷ rendered ∷ [])

old_answer-ignored_example :
    step whole words desktop join_path (go asked_twice []) (preview_answer 0 none)
    ≡ record (go asked_twice []) { fetches = remove_at 0 (go asked_twice []).fetches }
unfolding run change_ticket render on_preview_timer init text_eq
old_answer-ignored_example =
    old_answer-ignored whole words desktop join_path asked_twice [] 0 1 none (omega arith) refl

receive_succeeds_example :
    (go typed (
      receive
      ∷ rendered
      ∷ started 4
      ∷ rendered
      ∷ names (some (codes "a" ∷ []))
      ∷ completed 9
      ∷ [])).state.is_completed
    ≡ true
unfolding run change_ticket render init text_eq
receive_succeeds_example =
    (receive_succeeds whole words desktop join_path typed 4 9 (codes "a" ∷ []) refl refl).0
