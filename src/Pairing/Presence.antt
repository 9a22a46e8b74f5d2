-- ===== src/Pairing/Presence.antt =====
-- frontend/src/lib/pairing-api.ts: updates of the presence of paired devices.
use alt_sendme.Prelude.{◌≡◌, ◌≢◌, refl, Text, text_eq_iff, List, [], ◌∷◌, arith}
use alt_sendme.Pairing.Devices.{
  PairedDevice, DevicePresencePayload, patch_device, patch_device_presence,
}

module _ (lower : Text → Text) where
  last-wins :
      (p q : DevicePresencePayload) (device : PairedDevice)
      → lower p.endpoint_id ≡ lower q.endpoint_id
      → patch_device lower q (patch_device lower p device) ≡ patch_device lower q device
  unfolding patch_device
  last-wins p q device e = rw e (ground arith)

  -- Of two updates for the same device, however its identifier is capitalised, the last one counts.
  pub patch_device_presence-overwrites :
      (devices : List PairedDevice) (p q : DevicePresencePayload)
      → lower p.endpoint_id ≡ lower q.endpoint_id
      → patch_device_presence lower (patch_device_presence lower devices p) q
        ≡ patch_device_presence lower devices q
  unfolding patch_device_presence
  patch_device_presence-overwrites [] p q e = refl
  patch_device_presence-overwrites (device ∷ devices) p q e =
      rw (last-wins p q device e, patch_device_presence-overwrites devices p q e)

  any-order :
      (p q : DevicePresencePayload) (device : PairedDevice)
      → lower p.endpoint_id ≢ lower q.endpoint_id
      → patch_device lower q (patch_device lower p device)
        ≡ patch_device lower p (patch_device lower q device)
  unfolding patch_device
  any-order p q device d = ground (
    arith,
    text_eq_iff (lower device.endpoint_id) (lower p.endpoint_id),
    text_eq_iff (lower device.endpoint_id) (lower q.endpoint_id),
  )

  -- Updates for different devices give the same list in either order.
  pub patch_device_presence_comm :
      (devices : List PairedDevice) (p q : DevicePresencePayload)
      → lower p.endpoint_id ≢ lower q.endpoint_id
      → patch_device_presence lower (patch_device_presence lower devices p) q
        ≡ patch_device_presence lower (patch_device_presence lower devices q) p
  unfolding patch_device_presence
  patch_device_presence_comm [] p q d = refl
  patch_device_presence_comm (device ∷ devices) p q d =
      rw (any-order p q device d, patch_device_presence_comm devices p q d)
