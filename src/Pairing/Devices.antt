-- ===== src/Pairing/Devices.antt =====
-- frontend/src/lib/pairing-api.ts: the list of paired devices, its order and its updates. Times and
-- counts are natural numbers; the result of a comparison is its sign. `toLowerCase` and
-- `localeCompare` are parameters.
use Prim.Native.Nat.{compare, Ordering}
use alt_sendme.Prelude.{
  ℕ, Bool, true, false, Text, text_eq, Option, some, List, map, ◌==◌, if◌then◌else◌, or_else, get,
}
use alt_sendme.Sorting.{sort}

pub data PairingStatus : Type 0 where
  active : PairingStatus
  unpaired_remotely : PairingStatus
  stale_local_identity : PairingStatus

-- The engine may leave out `pairing_status` and `last_seen_at`.
pub record PairedDevice : Type 0 where
  pub endpoint_id : Text
  pub display_name : Text
  pub device_type : Text
  pub os : Text
  pub paired_at : ℕ
  pub last_seen_at : Option ℕ
  pub pairing_status : Option PairingStatus
  pub online : Bool

pub record DevicePresencePayload : Type 0 where
  pub endpoint_id : Text
  pub online : Bool
  pub last_seen_at : ℕ

abbrev is_active : PairingStatus → Bool
is_active active = true
is_active unpaired_remotely = false
is_active stale_local_identity = false

unfoldable pub is_paired_device_active : PairedDevice → Bool
is_paired_device_active device = is_active (or_else device.pairing_status active)

-- 0 is online and active, 1 offline and active, 2 unpaired.
unfoldable pub paired_device_list_rank : PairedDevice → ℕ
unfolding is_paired_device_active
paired_device_list_rank device =
    if is_paired_device_active device then (if device.online then 0 else 1) else 2

module _ (lower : Text → Text) (locale_compare : Text → Text → Ordering)
    (counts : List (Text × ℕ)) where
  unfoldable pub count_of : PairedDevice → ℕ
  unfolding get
  count_of device = or_else (get (lower device.endpoint_id) counts) 0

  abbrev pub seen_of : PairedDevice → ℕ
  seen_of device = or_else device.last_seen_at 0

  abbrev pub by_count : PairedDevice → PairedDevice → Ordering
  by_count a b =
      if count_of a == count_of b
      then locale_compare a.display_name b.display_name
      else compare (count_of b) (count_of a)

  abbrev pub by_seen : PairedDevice → PairedDevice → Ordering
  by_seen a b =
      if seen_of b == seen_of a
      then locale_compare a.display_name b.display_name
      else compare (seen_of b) (seen_of a)

  unfoldable pub compare_paired_devices_for_list : PairedDevice → PairedDevice → Ordering
  unfolding paired_device_list_rank count_of
  compare_paired_devices_for_list a b =
      let rank_a = paired_device_list_rank a in
      let rank_b = paired_device_list_rank b in
      if rank_a == rank_b
      then (if rank_a == 0 then by_count a b else by_seen a b)
      else compare rank_a rank_b

module _ (lower : Text → Text) (locale_compare : Text → Text → Ordering) where
  unfoldable pub sort_paired_devices_for_list :
      List PairedDevice → List (Text × ℕ) → List PairedDevice
  unfolding compare_paired_devices_for_list
  sort_paired_devices_for_list devices counts =
      sort (compare_paired_devices_for_list lower locale_compare counts) devices

  unfoldable pub sort_paired_devices_for_settings :
      List PairedDevice → List (Text × ℕ) → List PairedDevice
  unfolding count_of
  sort_paired_devices_for_settings devices counts =
      sort (by_count lower locale_compare counts) devices

abbrev patched : DevicePresencePayload → PairedDevice → PairedDevice
patched payload device = record device {
  online = payload.online;
  last_seen_at = some payload.last_seen_at;
}

unfoldable pub patch_device : (Text → Text) → DevicePresencePayload → PairedDevice → PairedDevice
unfolding text_eq
patch_device lower payload device =
    if text_eq (lower device.endpoint_id) (lower payload.endpoint_id)
    then patched payload device
    else device

unfoldable pub patch_device_presence :
    (Text → Text) → List PairedDevice → DevicePresencePayload → List PairedDevice
unfolding patch_device
patch_device_presence lower devices payload = map (patch_device lower payload) devices
