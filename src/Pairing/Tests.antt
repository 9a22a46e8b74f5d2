-- ===== src/Pairing/Tests.antt =====
-- Small lists of devices, with ASCII names that are ordered by their first unit.
use Prim.Native.Nat.{compare, Ordering}
use alt_sendme.Prelude.{
  ℕ, ◌≡◌, refl, Bool, true, false, Text, text_eq, codes, none, some, List, [], ◌∷◌, arith, get_or,
  map, if◌then◌else◌, get, ◌==◌,
}
use alt_sendme.Pairing.Devices.{PairedDevice, DevicePresencePayload, sort_paired_devices_for_list}
use alt_sendme.Pairing.Labels.{matches_paired_device_search}
use alt_sendme.Sorting.{IsOrder}
use alt_sendme.Pairing.Order.{AllShown, sort_paired_devices_for_list-AllShown}
use alt_sendme.Node.Machine.{mounted}
use alt_sendme.Pairing.Hook.{Pairing, opened, render}
use alt_sendme.Pairing.Machine.{
  Event, node_event, rendered, open_window, reply, ticket, second, run, init, step,
}
use alt_sendme.Pairing.Coherent.{Coherent, run-init-Coherent}
use alt_sendme.Pairing.Countdown.{seconds, left, countdown_ends}

abbrev first_unit : Text → Text → Ordering
first_unit a b = compare (get_or a 0 0) (get_or b 0 0)

first_unit-IsOrder : IsOrder first_unit
first_unit-IsOrder = record { total = λ a b h. ground arith; trans = λ a b c h k. ground arith }

abbrev lower_ascii : Text → Text
lower_ascii text = map (λ c. if c == b'A' then b'a' else c) text

abbrev device : Text → Bool → PairedDevice
device name online = record {
  endpoint_id = name;
  display_name = name;
  device_type = codes "laptop";
  os = codes "linux";
  paired_at = 1;
  last_seen_at = some 5;
  pairing_status = none;
  online = online;
}

abbrev devices : List PairedDevice
devices = device (codes "b") false ∷ device (codes "A") true ∷ device (codes "c") true ∷ []

abbrev counts : List (Text × ℕ)
counts = (codes "c", 2) ∷ []

abbrev shown : List PairedDevice
shown = device (codes "c") true ∷ device (codes "A") true ∷ device (codes "b") false ∷ []

sorted_devices : sort_paired_devices_for_list lower_ascii first_unit devices counts ≡ shown
unfolding sort_paired_devices_for_list get text_eq
sorted_devices = refl

sort_paired_devices_for_list-AllShown_example :
    AllShown lower_ascii first_unit first_unit-IsOrder counts
      (sort_paired_devices_for_list lower_ascii first_unit devices counts)
sort_paired_devices_for_list-AllShown_example =
    sort_paired_devices_for_list-AllShown lower_ascii first_unit first_unit-IsOrder counts devices

abbrev presence : Text → Bool → DevicePresencePayload
presence id online = record { endpoint_id = id; online = online; last_seen_at = 9 }

abbrev steps : List Event
steps = node_event mounted ∷ rendered ∷ open_window ∷ reply 0 (ticket (codes "t")) ∷ second ∷ []

run-init-Coherent_example : Coherent (run lower_ascii true (init lower_ascii true) steps)
run-init-Coherent_example = run-init-Coherent lower_ascii true steps

abbrev started : Pairing
started = run lower_ascii true (init lower_ascii true) (node_event mounted ∷ rendered ∷ [])

countdown_ends_example :
    let q = run lower_ascii true (opened (codes "t") started) (seconds 177) in
    (q.host_expires_in ≡ left 3) × (q.pairing_ticket ≡ some (codes "t"))
unfolding run init step render
countdown_ends_example = countdown_ends lower_ascii true (codes "t") started 3 177 refl refl

abbrev plain_case : Text → Text
plain_case text = text

found_by_label :
    matches_paired_device_search plain_case (device (codes "b") true) (codes " p Linux ") ≡ true
unfolding matches_paired_device_search
found_by_label = refl
