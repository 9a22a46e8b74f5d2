-- ===== src/Sender/Unstuck.antt =====
-- frontend/src/hooks/useSender.ts: the marks of the invitations do not get stuck.
use alt_sendme.Prelude.{
  ℕ, ◌≡◌, refl, Bool, true, false, Text, text_eq, Option, none, some, List, [], ◌∷◌, ◌++◌, any,
  any-append, any-remove_at, get, get-put, get-delete, arith, remove_at, get_elem?, Option-cases,
  inl, inr,
}
use alt_sendme.Sender.Invites.{
  PairedInviteStatus, sending, sent, failed_invite, InviteTask, listing, inviting, expiring,
  Invites, set_invite_status, refresh_paired_devices, on_invite_paired_device, delivered_invite,
  fail_invite, render_invites, InviteReply, devices_listed, answered, failed, due, InviteEvent,
  rendered, invite, response, presence, refresh, reply, resume_invite, resume_invite_at,
  invite_step, invite_run, no_invites, name_of, find_device,
}

abbrev is_sending : Option PairedInviteStatus → Bool
is_sending none = false
is_sending (some sending) = true
is_sending (some sent) = false
is_sending (some failed_invite) = false

abbrev is_failed : Option PairedInviteStatus → Bool
is_failed none = false
is_failed (some sending) = false
is_failed (some sent) = false
is_failed (some failed_invite) = true

abbrev invites : Text → InviteTask → Bool
invites id listing = false
invites id (inviting other name) = text_eq other id
invites id (expiring other) = false

abbrev expires : Text → InviteTask → Bool
expires id listing = false
expires id (inviting other name) = false
expires id (expiring other) = text_eq other id

-- The mark of a device, with the requests and timers for it.
pub record Unstuck (id : Text) (v : Invites) : Type 0 where
  pub answers :
      is_sending (get id v.paired_invite_status) ≡ true → any (invites id) v.pending ≡ true
  pub passes : is_failed (get id v.paired_invite_status) ≡ true → any (expires id) v.pending ≡ true

module _ (id : Text) where
  await-Unstuck :
      (task : InviteTask) (v : Invites)
      → Unstuck id v
      → Unstuck id (record v { pending = v.pending ++ task ∷ [] })
  await-Unstuck task v h = ground (
    arith,
    h,
    any-append (invites id) v.pending (task ∷ []),
    any-append (expires id) v.pending (task ∷ []),
  )

  cleared-Unstuck :
      (other : Text) (v : Invites) → Unstuck id v → Unstuck id (set_invite_status other none v)
  unfolding set_invite_status
  cleared-Unstuck other v h = ground (arith, h, get-delete other id v.paired_invite_status)

  sent-Unstuck :
      (other : Text) (v : Invites)
      → Unstuck id v
      → Unstuck id (set_invite_status other (some sent) v)
  unfolding set_invite_status
  sent-Unstuck other v h = ground (arith, h, get-put other id sent v.paired_invite_status)

  begun-Unstuck :
      (lower : Text → Text) (other : Text) (v : Invites)
      → Unstuck id v
      → Unstuck id (on_invite_paired_device lower other v)
  unfolding on_invite_paired_device set_invite_status
  begun-Unstuck lower other v h = ground (
    arith,
    h,
    get-put other id sending v.paired_invite_status,
    any-append (invites id) v.pending
        (inviting other (name_of (find_device other v.rendered_devices)) ∷ []),
    any-append (expires id) v.pending
        (inviting other (name_of (find_device other v.rendered_devices)) ∷ []),
  )

  failed-Unstuck :
      (i : ℕ) (other : Text) (name text : Option Text) (v : Invites)
      → get_elem? v.pending i ≡ some (inviting other name)
      → Unstuck id v
      → Unstuck id (fail_invite other text (record v { pending = remove_at i v.pending }))
  unfolding fail_invite set_invite_status
  failed-Unstuck i other name text v e h = ground (
    arith,
    h,
    any-remove_at (expires id) i v.pending (inviting other name) e refl,
    any-remove_at (invites id) i v.pending (inviting other name) e,
    get-put other id failed_invite v.paired_invite_status,
    any-append (expires id) (remove_at i v.pending) (expiring other ∷ []),
    any-append (invites id) (remove_at i v.pending) (expiring other ∷ []),
  )

  answered-Unstuck :
      (i : ℕ) (other : Text) (name : Option Text) (answer : InviteReply) (v : Invites)
      → get_elem? v.pending i ≡ some (inviting other name)
      → Unstuck id v
      → Unstuck id (resume_invite_at (some (inviting other name)) i answer v)
  unfolding resume_invite delivered_invite set_invite_status
  answered-Unstuck i other name (devices_listed devices) v e h = h
  answered-Unstuck i other name due v e h = h
  answered-Unstuck i other name (answered true) v e h = ground (
    arith,
    h,
    any-remove_at (expires id) i v.pending (inviting other name) e refl,
    any-remove_at (invites id) i v.pending (inviting other name) e,
    get-put other id sent v.paired_invite_status,
  )
  answered-Unstuck i other name (answered false) v e h = failed-Unstuck i other name none v e h
  answered-Unstuck i other name (failed text) v e h = failed-Unstuck i other name (some text) v e h

  expired-Unstuck :
      (i : ℕ) (other : Text) (v : Invites)
      → get_elem? v.pending i ≡ some (expiring other)
      → Unstuck id v
      → Unstuck id (resume_invite_at (some (expiring other)) i due v)
  unfolding resume_invite set_invite_status
  expired-Unstuck i other v e h = ground (
    arith,
    h,
    any-remove_at (invites id) i v.pending (expiring other) e refl,
    any-remove_at (expires id) i v.pending (expiring other) e,
    get-delete other id v.paired_invite_status,
  )

  listed-Unstuck :
      (i : ℕ) (answer : InviteReply) (v : Invites)
      → get_elem? v.pending i ≡ some listing
      → Unstuck id v
      → Unstuck id (resume_invite_at (some listing) i answer v)
  unfolding resume_invite
  listed-Unstuck i answer v e h = ground (
    arith,
    h,
    any-remove_at (expires id) i v.pending listing e refl,
    any-remove_at (invites id) i v.pending listing e refl,
  )

  resume_invite_at-Unstuck :
      (task : InviteTask) (i : ℕ) (answer : InviteReply) (v : Invites)
      → get_elem? v.pending i ≡ some task
      → Unstuck id v
      → Unstuck id (resume_invite_at (some task) i answer v)
  unfolding resume_invite
  resume_invite_at-Unstuck listing i answer v e h = listed-Unstuck i answer v e h
  resume_invite_at-Unstuck (inviting other name) i answer v e h =
      answered-Unstuck i other name answer v e h
  resume_invite_at-Unstuck (expiring other) i due v e h = expired-Unstuck i other v e h
  resume_invite_at-Unstuck (expiring other) i answer v e h = h

  invite_step-Unstuck :
      (lower : Text → Text) (capable : Bool) (v : Invites) (e : InviteEvent)
      → Unstuck id v
      → Unstuck id (invite_step lower capable v e)
  unfolding invite_step render_invites refresh_paired_devices get
  invite_step-Unstuck lower capable v (rendered ticket ready) h = ground (arith, h)
  invite_step-Unstuck lower capable v (invite other) h = begun-Unstuck lower other v h
  invite_step-Unstuck lower capable v (response other) h = cleared-Unstuck other v h
  invite_step-Unstuck lower capable v (presence payload) h = ground (arith, h)
  invite_step-Unstuck lower capable v refresh h = ground (arith, await-Unstuck listing v h)
  invite_step-Unstuck lower capable v (reply i answer) h =
      elim (Option-cases (get_elem? v.pending i)) [
        | inl e ↦ rw (e) h
        | inr (task, e) ↦ rw (e) (resume_invite_at-Unstuck task i answer v e h)
      ]

  invite_run-Unstuck :
      (lower : Text → Text) (capable : Bool) (v : Invites) (es : List InviteEvent)
      → Unstuck id v
      → Unstuck id (invite_run lower capable v es)
  unfolding invite_run
  invite_run-Unstuck lower capable v [] h = h
  invite_run-Unstuck lower capable v (e ∷ es) h =
      invite_run-Unstuck lower capable (invite_step lower capable v e) es
        (invite_step-Unstuck lower capable v e h)

-- The marks of the invitations do not get stuck: after any events, in any order of the answers, a
-- device is marked as being invited only while a request to it is awaited, and as failed only while
-- a timer runs that takes the mark away.
pub invite_run-no_invites-Unstuck :
    (lower : Text → Text) (capable : Bool) (es : List InviteEvent) (id : Text)
    → Unstuck id (invite_run lower capable no_invites es)
unfolding get
invite_run-no_invites-Unstuck lower capable es id =
    invite_run-Unstuck id lower capable no_invites es (ground arith)
