-- ===== src/Sender/Invites.antt =====
-- frontend/src/hooks/useSender.ts: the invitations of paired devices, as a state machine beside the
-- transfers, with frontend/src/lib/paired-send-counts.ts.
use alt_sendme.Prelude.{
  ℕ, suc, Bool, true, false, not, ◌&&◌, ◌||◌, Text, text_eq, Option, none, some, List, [], ◌∷◌,
  ◌++◌, any, is_truthy, or_else, get, put, delete, remove_at, get_elem?, if◌then◌else◌,
}
use alt_sendme.Pairing.Devices.{
  PairedDevice, DevicePresencePayload, is_paired_device_active, patch_device_presence,
}

pub data PairedInviteStatus : Type 0 where
  sending sent failed_invite : PairedInviteStatus

-- What is awaited: the list of devices, the answer of a device, the 4000 ms of a failure.
pub data InviteTask : Type 0 where
  listing : InviteTask
  -- with the device's name, if it is in the list that the handler closes over
  inviting : Text → Option Text → InviteTask
  expiring : Text → InviteTask

pub data InviteToast : Type 0 where
  node_unavailable : InviteToast
  -- the device's name
  invite_sent : Option Text → InviteToast
  -- the error's text, `none` for a device that was not reached
  invite_failed : Option Text → InviteToast

pub record Invites : Type 0 where
  pub paired_devices : List PairedDevice
  pub paired_invite_status : List (Text × PairedInviteStatus)
  -- what the last render has seen
  pub rendered_status : List (Text × PairedInviteStatus)
  pub rendered_devices : List PairedDevice
  pub ticket : Option Text
  pub is_node_ready : Bool
  -- the counts of the local storage
  pub send_counts : List (Text × ℕ)
  pub toasts : List InviteToast
  pub pending : List InviteTask

abbrev await : InviteTask → Invites → Invites
await task v = record v { pending = v.pending ++ task ∷ [] }

abbrev toast : InviteToast → Invites → Invites
toast t v = record v { toasts = v.toasts ++ t ∷ [] }

unfoldable pub set_invite_status : Text → Option PairedInviteStatus → Invites → Invites
unfolding put delete
set_invite_status id none v = record v { paired_invite_status = delete id v.paired_invite_status }
set_invite_status id (some status) v = record v {
  paired_invite_status = put id status v.paired_invite_status;
}

unfoldable pub refresh_paired_devices : Bool → Invites → Invites
refresh_paired_devices capable v =
    if capable then await listing v else record v { paired_devices = [] }

abbrev in_flight : PairedInviteStatus → Bool
in_flight sending = true
in_flight sent = true
in_flight failed_invite = false

abbrev pub is_in_flight : Option PairedInviteStatus → Bool
is_in_flight none = false
is_in_flight (some status) = in_flight status

unfoldable pub another_invite_in_flight : Text → List (Text × PairedInviteStatus) → Bool
unfolding text_eq
another_invite_in_flight id entries =
    any (λ (e : Text × PairedInviteStatus). not (text_eq e.0 id) && in_flight e.1) entries

unfoldable pub find_device : Text → List PairedDevice → Option PairedDevice
unfolding text_eq
find_device id [] = none
find_device id (d ∷ devices) = if text_eq d.endpoint_id id then some d else find_device id devices

abbrev is_reachable : Option PairedDevice → Bool
is_reachable none = true
is_reachable (some d) = is_paired_device_active d && d.online

-- `incrementPairedSendCount`
unfoldable pub increment_paired_send_count :
    (Text → Text) → Text → List (Text × ℕ) → List (Text × ℕ)
unfolding get put
increment_paired_send_count lower id counts =
    put (lower id) (suc (or_else (get (lower id) counts) 0)) counts

abbrev pub name_of : Option PairedDevice → Option Text
name_of none = none
name_of (some d) = some d.display_name

-- The rest of `onInvitePairedDevice`, up to its `await`.
abbrev begin_invite : (Text → Text) → Text → Invites → Invites
begin_invite lower id v = await (inviting id (name_of (find_device id v.rendered_devices))) (
    set_invite_status id (some sending)
      (record v { send_counts = increment_paired_send_count lower id v.send_counts }))

unfoldable pub on_invite_paired_device : (Text → Text) → Text → Invites → Invites
unfolding set_invite_status another_invite_in_flight find_device increment_paired_send_count get
on_invite_paired_device lower id v =
    if not (is_truthy v.ticket)
    then v
    else if not v.is_node_ready
    then toast node_unavailable v
    else if another_invite_in_flight id v.rendered_status
        || is_in_flight (get id v.rendered_status)
        || not (is_reachable (find_device id v.rendered_devices))
    then v
    else begin_invite lower id v

-- `invitePairedDevice` has answered.
unfoldable pub delivered_invite : Text → Option Text → Invites → Invites
unfolding set_invite_status
delivered_invite id name v = toast (invite_sent name) (set_invite_status id (some sent) v)

unfoldable pub fail_invite : Text → Option Text → Invites → Invites
unfolding set_invite_status
fail_invite id text v =
    await (expiring id) (toast (invite_failed text) (set_invite_status id (some failed_invite) v))

abbrev same_ticket : Option Text → Option Text → Bool
same_ticket none none = true
same_ticket none (some b) = false
same_ticket (some a) none = false
same_ticket (some a) (some b) = text_eq a b

-- A render, with the effect that runs when the ticket has changed.
abbrev without_status : Bool → Invites → Invites
without_status gone v = if gone then record v { paired_invite_status = [] } else v

unfoldable pub render_invites : Option Text → Bool → Invites → Invites
unfolding text_eq
render_invites ticket ready v =
    without_status (not (is_truthy ticket) && not (same_ticket v.ticket ticket)) (record v {
      rendered_status = v.paired_invite_status;
      rendered_devices = v.paired_devices;
      ticket = ticket;
      is_node_ready = ready;
    })

pub data InviteReply : Type 0 where
  devices_listed : List PairedDevice → InviteReply
  -- whether it was delivered
  answered : Bool → InviteReply
  failed : Text → InviteReply
  due : InviteReply

pub data InviteEvent : Type 0 where
  rendered : Option Text → Bool → InviteEvent
  invite : Text → InviteEvent
  -- `paired-invite-response`, of a device with an identifier
  response : Text → InviteEvent
  presence : DevicePresencePayload → InviteEvent
  refresh : InviteEvent
  reply : ℕ → InviteReply → InviteEvent

unfoldable pub resume_invite : InviteTask → InviteReply → Invites → Invites
unfolding delivered_invite fail_invite set_invite_status
resume_invite listing (devices_listed devices) v = record v { paired_devices = devices }
resume_invite (inviting id name) (answered true) v = delivered_invite id name v
resume_invite (inviting id name) (answered false) v = fail_invite id none v
resume_invite (inviting id name) (failed text) v = fail_invite id (some text) v
resume_invite (expiring id) due v = set_invite_status id none v
resume_invite _ _ v = v

abbrev ends : InviteTask → InviteReply → Bool
ends listing (devices_listed devices) = true
ends listing (failed text) = true
ends (inviting id name) (answered delivered) = true
ends (inviting id name) (failed text) = true
ends (expiring id) due = true
ends _ _ = false

abbrev pub resume_invite_at : Option InviteTask → ℕ → InviteReply → Invites → Invites
resume_invite_at none i answer v = v
resume_invite_at (some task) i answer v =
    if ends task answer
    then resume_invite task answer (record v { pending = remove_at i v.pending })
    else v

module _ (lower : Text → Text) (capable : Bool) where
  abbrev patch : DevicePresencePayload → Invites → Invites
  patch payload v =
      if capable
      then record v { paired_devices = patch_device_presence lower v.paired_devices payload }
      else v

  unfoldable pub invite_step : Invites → InviteEvent → Invites
  unfolding render_invites on_invite_paired_device set_invite_status refresh_paired_devices
      resume_invite patch_device_presence
  invite_step v (rendered ticket ready) = render_invites ticket ready v
  invite_step v (invite id) = on_invite_paired_device lower id v
  invite_step v (response id) = set_invite_status id none v
  invite_step v (presence payload) = patch payload v
  invite_step v refresh = refresh_paired_devices capable v
  invite_step v (reply i answer) = resume_invite_at (get_elem? v.pending i) i answer v

  unfoldable pub invite_run : Invites → List InviteEvent → Invites
  unfolding invite_step
  invite_run v [] = v
  invite_run v (e ∷ es) = invite_run (invite_step v e) es

abbrev pub no_invites : Invites
no_invites = record {
  paired_devices = [];
  paired_invite_status = [];
  rendered_status = [];
  rendered_devices = [];
  ticket = none;
  is_node_ready = false;
  send_counts = [];
  toasts = [];
  pending = [];
}
