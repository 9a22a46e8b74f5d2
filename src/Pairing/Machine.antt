-- ===== src/Pairing/Machine.antt =====
-- frontend/src/hooks/usePairing.ts as a state machine, with the node's store beside it.
use alt_sendme.Prelude.{
  ℕ, Bool, true, false, Text, Option, none, some, List, [], ◌∷◌, remove_at, get_elem?,
  if◌then◌else◌,
}
use alt_sendme.Node.Status.{Node}
use alt_sendme.Node.Machine
use alt_sendme.Node.Status
use alt_sendme.Pairing.Devices.{PairedDevice, DevicePresencePayload, patch_device_presence}
use alt_sendme.Pairing.Hook.{
  DeviceInfo, Task, start_host, stop_host, join_request, forget_request, rename_self,
  rename_request, hydration, Pairing, await, hydrate, hydrated, fail_hydrate, on_device_paired,
  on_host_expired, on_unpaired, open_host, opened, close_host, join, renamed_self, tick, render,
}

-- How a task ends; it gets the replies of its kind.
pub data Reply : Type 0 where
  finished failed : Reply
  ticket : Text → Reply
  info : Option DeviceInfo → Reply
  loaded : List PairedDevice → Option DeviceInfo → Option Text → Reply

pub data Event : Type 0 where
  -- what the node's store gets, but for `device-paired`, which this hook gets too
  node_event : Machine.Event → Event
  device_paired host_expired identity_rotated : Event
  unpaired : Bool → Option Text → Event
  presence : DevicePresencePayload → Event
  -- the user
  open_window close_window join_other forget rename_this rename_other : Event
  rendered second : Event
  reply : ℕ → Reply → Event

module _ (lower : Text → Text) (capable : Bool) where
  unfoldable pub resume : Task → Reply → Pairing → Pairing
  unfolding hydrate hydrated fail_hydrate opened
  resume start_host (ticket t) p = opened t p
  resume start_host failed p = record p { is_loading = false }
  resume join_request finished p = hydrate capable true p
  resume join_request failed p = record p { is_joining = false }
  resume forget_request finished p = hydrate capable false p
  resume rename_self (info i) p = renamed_self i p
  resume rename_request finished p = hydrate capable false p
  resume (hydration join) (loaded devices i code) p = hydrated join devices i code p
  resume (hydration join) failed p = fail_hydrate join p
  resume _ _ p = p

  -- Whether the reply ends the task: others cannot come.
  abbrev ends : Task → Reply → Bool
  ends start_host (ticket t) = true
  ends start_host failed = true
  ends stop_host finished = true
  ends stop_host failed = true
  ends join_request finished = true
  ends join_request failed = true
  ends forget_request finished = true
  ends forget_request failed = true
  ends rename_self (info i) = true
  ends rename_self failed = true
  ends rename_request finished = true
  ends rename_request failed = true
  ends (hydration join) (loaded devices i code) = true
  ends (hydration join) failed = true
  ends _ _ = false

  abbrev pub resume_at : Option Task → ℕ → Reply → Pairing → Pairing
  resume_at none i answer p = p
  resume_at (some task) i answer p =
      if ends task answer
      then resume task answer (record p { pending = remove_at i p.pending })
      else p

  -- The events are listened to where pairing is possible.
  abbrev if_capable : (Pairing → Pairing) → Pairing → Pairing
  if_capable f p = if capable then f p else p

  abbrev patch : DevicePresencePayload → Pairing → Pairing
  patch payload p = record p { devices = patch_device_presence lower p.devices payload }

  abbrev paired : Pairing → Pairing
  paired p =
      on_device_paired capable
        (record p { node = Machine.step capable p.node Machine.Event.device_paired })

  unfoldable pub step : Pairing → Event → Pairing
  unfolding resume on_device_paired on_host_expired on_unpaired open_host close_host join tick
      render Machine.step patch_device_presence hydrate
  step p (node_event e) = record p { node = Machine.step capable p.node e }
  step p device_paired = if_capable paired p
  step p host_expired = if_capable on_host_expired p
  step p identity_rotated = if_capable (hydrate capable false) p
  step p (unpaired remote name) = if_capable (on_unpaired capable remote name) p
  step p (presence payload) = if_capable (patch payload) p
  step p open_window = open_host capable p
  step p close_window = close_host p
  step p join_other = join capable p
  step p forget = await forget_request p
  step p rename_this = await rename_self p
  step p rename_other = await rename_request p
  step p rendered = render capable p
  step p second = tick p
  step p (reply i answer) = resume_at (get_elem? p.pending i) i answer p

  unfoldable pub run : Pairing → List Event → Pairing
  unfolding step
  run p [] = p
  run p (e ∷ es) = run (step p e) es

  unfoldable pub init : Pairing
  unfolding Status.init
  init = record {
    node = Status.init capable;
    devices = [];
    this_device = none;
    pairing_code = none;
    has_hydrated = if capable then false else true;
    pairing_ticket = none;
    host_expires_in = none;
    is_joining = false;
    is_loading = false;
    host_paired_count = 0;
    pairing_ticket_ref = none;
    rendered_resolved = none;
    rendered_ready = false;
    rendered_expires = none;
    timer = false;
    toasts = [];
    pending = [];
  }
