-- ===== src/Sender/InviteTests.antt =====
-- Runs of the invitations.
use alt_sendme.Prelude.{
  ◌≡◌, refl, true, false, Text, codes, none, some, List, [], ◌∷◌, text_eq, get, put, delete,
}
use alt_sendme.Sender.Invites.{
  sending, sent, rendered, invite, reply, answered, due, InviteEvent, invite_step, invite_run,
  no_invites, render_invites, on_invite_paired_device, resume_invite, delivered_invite, fail_invite,
  set_invite_status, another_invite_in_flight, find_device, increment_paired_send_count,
}
use alt_sendme.Sender.Unstuck.{Unstuck, invite_run-no_invites-Unstuck}

abbrev plain : Text → Text
plain id = id

abbrev show : InviteEvent
show = rendered (some (codes "t")) true

abbrev first_run : List InviteEvent
first_run = show ∷ invite (codes "a") ∷ reply 0 (answered true) ∷ []

invite_run-no_invites-Unstuck_example :
    Unstuck (codes "a") (invite_run plain true no_invites first_run)
invite_run-no_invites-Unstuck_example =
    invite_run-no_invites-Unstuck plain true first_run (codes "a")

-- An invitation is delivered after sharing has ended; it still counts in the next share, and no
-- other device can be invited.
late_delivery :
    (invite_run plain true no_invites (
      show
      ∷ invite (codes "a")
      ∷ rendered none true
      ∷ reply 0 (answered true)
      ∷ show
      ∷ invite (codes "b")
      ∷ [])).paired_invite_status
    ≡ (codes "a", sent) ∷ []
unfolding invite_run invite_step render_invites on_invite_paired_device resume_invite
    delivered_invite set_invite_status another_invite_in_flight find_device
    increment_paired_send_count get put text_eq
late_delivery = refl

-- The first invitation fails, the second of the same device is delivered; then the timer of the
-- failure takes its mark away, and another device can be invited while it is in flight.
late_timer :
    (invite_run plain true no_invites (
      show
      ∷ invite (codes "a")
      ∷ reply 0 (answered false)
      ∷ show
      ∷ invite (codes "a")
      ∷ reply 1 (answered true)
      ∷ reply 0 due
      ∷ show
      ∷ invite (codes "b")
      ∷ [])).paired_invite_status
    ≡ (codes "b", sending) ∷ []
unfolding invite_run invite_step render_invites on_invite_paired_device resume_invite
    delivered_invite fail_invite set_invite_status delete another_invite_in_flight find_device
    increment_paired_send_count get put text_eq
late_timer = refl
