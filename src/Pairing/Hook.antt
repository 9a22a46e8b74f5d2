-- ===== src/Pairing/Hook.antt =====
-- frontend/src/store/pairing-data-store.ts and frontend/src/hooks/usePairing.ts: the paired devices, the
-- pairing window that this device hosts, and the handlers.
use alt_sendme.Prelude.{
  ℕ, suc, ◌-◌, Bool, true, false, not, ◌&&◌, ◌||◌, Text, Option, none, some, List, [], ◌∷◌, ◌++◌,
  if◌then◌else◌, is_some, leb, ltb, ◌==◌,
}
use alt_sendme.Node.Status.{Node, is_ready, is_node_ready, is_node_status_settled}
use alt_sendme.Pairing.Devices.{PairedDevice}

pub record DeviceInfo : Type 0 where
  pub endpoint_id : Text
  pub display_name : Text
  pub device_type : Text
  pub os : Text

-- What is awaited.
pub data Task : Type 0 where
  start_host stop_host : Task
  -- `join_pairing`; then the data are hydrated, for a join
  join_request forget_request rename_self rename_request : Task
  -- the requests of `hydrate`; whether a join waits for it
  hydration : Bool → Task

pub data Toast : Type 0 where
  host_closed host_opened : Toast
  device_unpaired : Option Text → Toast

pub record Pairing : Type 0 where
  pub node : Node
  -- the store
  pub devices : List PairedDevice
  pub this_device : Option DeviceInfo
  pub pairing_code : Option Text
  pub has_hydrated : Bool
  -- the hook
  pub pairing_ticket : Option Text
  pub host_expires_in : Option ℕ
  pub is_joining : Bool
  pub is_loading : Bool
  pub host_paired_count : ℕ
  pub pairing_ticket_ref : Option Text
  -- what the last render has seen: `hasResolved`, if there was one, `isNodeReady`, `hostExpiresIn`
  pub rendered_resolved : Option Bool
  pub rendered_ready : Bool
  pub rendered_expires : Option ℕ
  -- the interval of the countdown
  pub timer : Bool
  pub toasts : List Toast
  pub pending : List Task

abbrev pub host_ttl_secs : ℕ
host_ttl_secs = 180

abbrev pub await : Task → Pairing → Pairing
await task p = record p { pending = p.pending ++ task ∷ [] }

abbrev toast : Toast → Pairing → Pairing
toast t p = record p { toasts = p.toasts ++ t ∷ [] }

abbrev without_data : Pairing → Pairing
without_data p = record p {
  devices = [];
  this_device = none;
  pairing_code = none;
  has_hydrated = true;
}

-- The `finally` of `join`, where one waits.
abbrev joined : Bool → Pairing → Pairing
joined join p = if join then record p { is_joining = false } else p

-- `hydrate`, up to its requests; `join` says that a join waits for it.
unfoldable pub hydrate : Bool → Bool → Pairing → Pairing
unfolding is_node_status_settled
hydrate capable join p =
    if capable
    then (if p.node.has_resolved && is_node_status_settled p.node.node_status
        then (if is_ready p.node.node_status.status
            then await (hydration join) p
            else joined join (without_data p))
        else joined join p)
    else joined join (without_data p)

-- The requests of `hydrate` have answered; `none` for the code if that request failed.
unfoldable pub hydrated :
    Bool → List PairedDevice → Option DeviceInfo → Option Text → Pairing → Pairing
hydrated join devices info code p =
    joined join
      (record p { devices = devices; this_device = info; pairing_code = code; has_hydrated = true })

unfoldable pub fail_hydrate : Bool → Pairing → Pairing
fail_hydrate join p = joined join (record p { has_hydrated = true })

-- `device-paired`: the pairing window is closed if one is shown.
unfoldable pub on_device_paired : Bool → Pairing → Pairing
unfolding hydrate
on_device_paired capable p =
    let closed = record p {
      pairing_ticket = none;
      host_expires_in = none;
      host_paired_count = suc p.host_paired_count;
    } in
    hydrate capable false (if is_some p.pairing_ticket_ref then closed else p)

-- `pairing-host-expired`
unfoldable pub on_host_expired : Pairing → Pairing
on_host_expired p = toast host_closed (record p { pairing_ticket = none; host_expires_in = none })

-- `device-unpaired`: its name, and whether it was unpaired by the other device
unfoldable pub on_unpaired : Bool → Bool → Option Text → Pairing → Pairing
unfolding hydrate
on_unpaired capable remote name p =
    hydrate capable false (if remote then toast (device_unpaired name) p else p)

unfoldable pub open_host : Bool → Pairing → Pairing
open_host capable p =
    if capable && p.rendered_ready then await start_host (record p { is_loading = true }) else p

-- `start_pairing_host` has given a ticket
unfoldable pub opened : Text → Pairing → Pairing
opened ticket p = toast host_opened (record p {
  pairing_ticket = some ticket;
  host_expires_in = some host_ttl_secs;
  is_loading = false;
})

unfoldable pub close_host : Pairing → Pairing
close_host p = await stop_host (record p { pairing_ticket = none; host_expires_in = none })

unfoldable pub join : Bool → Pairing → Pairing
join capable p =
    if capable && p.rendered_ready then await join_request (record p { is_joining = true }) else p

-- `renameThisDevice` has an answer
abbrev pub renamed_self : Option DeviceInfo → Pairing → Pairing
renamed_self none p = p
renamed_self (some info) p = record p { this_device = some info }

-- A tick of the countdown.
abbrev pub counted_down : Option ℕ → Pairing → Pairing
counted_down none p = record p { timer = false; host_expires_in = none }
counted_down (some n) p =
    if leb n 1
    then record p { timer = false; host_expires_in = none }
    else record p { host_expires_in = some (n - 1) }

unfoldable pub tick : Pairing → Pairing
tick p = if p.timer then counted_down p.host_expires_in p else p

abbrev pub same_expires : Option ℕ → Option ℕ → Bool
same_expires none none = true
same_expires none (some n) = false
same_expires (some m) none = false
same_expires (some m) (some n) = m == n

abbrev pub is_positive : Option ℕ → Bool
is_positive none = false
is_positive (some n) = ltb 0 n

abbrev seen : Option Bool → Bool → Bool
seen none b = false
seen (some true) b = b
seen (some false) b = not b

-- A render: the ref is synced, the data are hydrated when `hasResolved` has changed to true, and the
-- countdown's interval is replaced when `hostExpiresIn` has changed.
unfoldable pub render : Bool → Pairing → Pairing
unfolding hydrate
render capable p =
    let resolved = p.node.has_resolved in
    let synced = record p {
      pairing_ticket_ref = p.pairing_ticket;
      rendered_resolved = some resolved;
      rendered_ready = is_node_ready capable p.node;
      rendered_expires = p.host_expires_in;
      timer =
          if same_expires p.host_expires_in p.rendered_expires
          then p.timer
          else is_positive p.host_expires_in;
    } in
    if resolved && not (seen p.rendered_resolved resolved)
    then hydrate capable false synced
    else synced

-- `isPairingDataPending`
abbrev pub is_pairing_data_pending : Bool → Pairing → Bool
is_pairing_data_pending capable p =
    capable && (not p.node.has_resolved || (is_node_ready capable p.node && not p.has_hydrated))
