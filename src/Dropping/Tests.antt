-- ===== src/Dropping/Tests.antt =====
-- A drag in the browser, and two shares on Android.
use alt_sendme.Prelude.{◌≡◌, refl, Text, some, [], ◌∷◌, codes}
use alt_sendme.Dropping.State.{
  web, android, share, DropZone, set_up_shares, run_share, consume_android_share,
}
use alt_sendme.Dropping.Machine.{
  drag_entered, drag_left, dropped_items, shares_set_up, shared, reply, started, copy_begins,
  copy_ends, step, run, init,
}
use alt_sendme.Dropping.Consistent.{Consistent, run-init-Consistent}
use alt_sendme.Dropping.Shares.{share_is_lost}

abbrev same_text : Text → Text
same_text key = key

run-init-Consistent_example :
    Consistent web
      (run same_text web init (drag_entered ∷ drag_entered ∷ drag_left ∷ dropped_items ∷ []))
run-init-Consistent_example =
    run-init-Consistent same_text web (drag_entered ∷ drag_entered ∷ drag_left ∷ dropped_items ∷ [])

-- The effect has asked for a share.
abbrev asked : DropZone
asked = run same_text android init (shares_set_up ∷ [])

share_is_lost_example :
    let later =
      run same_text android
        (step same_text android asked (reply 0 (started (some 7))))
        (copy_begins (codes "/c/a.txt") 5 ∷ copy_ends (codes "/c/a.txt") share ∷ []) in
    step same_text android later shared ≡ later
unfolding run step set_up_shares run_share consume_android_share
share_is_lost_example =
    share_is_lost same_text asked 0 7
      (copy_begins (codes "/c/a.txt") 5 ∷ copy_ends (codes "/c/a.txt") share ∷ []) refl
