-- ===== src/Pairing/Order.antt =====
-- frontend/src/lib/pairing-api.ts: the lists of paired devices are sorted, and lose no device.
use Prim.Native.Nat.{compare, Ordering}
use mathlib.Core.List.{Permᴰ}
use alt_sendme.Prelude.{
  ℕ, ◌≡◌, ◌<◌, ◌≤◌, ◌⊎◌, true, false, Text, List, [], ◌∷◌, ◌==◌, if◌then◌else◌, arith, All,
}
use alt_sendme.Sorting.{is_after, IsOrder, NotAfter, Sorted, sort-Permᴰ, sort-Sorted}
use alt_sendme.Pairing.Devices.{
  PairedDevice, paired_device_list_rank, count_of, seen_of, by_count, by_seen,
  compare_paired_devices_for_list, sort_paired_devices_for_list, sort_paired_devices_for_settings,
}

-- A step of a chain of comparisons: by a key first, by the rest where the keys are equal.
abbrev Chain : Ordering → Ordering → Ordering → Type 0
Chain x y z = is_after x ≡ false → is_after y ≡ false → is_after z ≡ false

up_trans :
    (p q r : ℕ) (x y z : Ordering)
    → (p ≡ q → q ≡ r → Chain x y z)
    → Chain
        (if p == q then x else compare p q)
        (if q == r then y else compare q r)
        (if p == r then z else compare p r)
up_trans p q r x y z inner h k = ground (arith, inner)

down_trans :
    (p q r : ℕ) (x y z : Ordering)
    → Chain x y z
    → Chain
        (if p == q then x else compare q p)
        (if q == r then y else compare r q)
        (if p == r then z else compare r p)
down_trans p q r x y z inner h k = ground (arith, inner)

down_trans_flipped :
    (p q r : ℕ) (x y z : Ordering)
    → Chain x y z
    → Chain
        (if q == p then x else compare q p)
        (if r == q then y else compare r q)
        (if r == p then z else compare r p)
down_trans_flipped p q r x y z inner h k = ground (arith, inner)

pick_trans :
    (p q : ℕ) (x y z u v w : Ordering)
    → p ≡ q
    → Chain x y z
    → Chain u v w
    → Chain (if p == 0 then x else u) (if q == 0 then y else v) (if p == 0 then z else w)
pick_trans p q x y z u v w e f g h k = ground (arith, f, g)

module _ (lower : Text → Text) (locale_compare : Text → Text → Ordering)
    (collation : IsOrder locale_compare) (counts : List (Text × ℕ)) where
  list-total :
      (a b : PairedDevice)
      → is_after (compare_paired_devices_for_list lower locale_compare counts a b) ≡ true
      → is_after (compare_paired_devices_for_list lower locale_compare counts b a) ≡ false
  unfolding compare_paired_devices_for_list
  list-total a b h = ground (arith, collation.total a.display_name b.display_name)

  names_trans :
      (a b c : PairedDevice)
      → Chain
          (locale_compare a.display_name b.display_name)
          (locale_compare b.display_name c.display_name)
          (locale_compare a.display_name c.display_name)
  names_trans a b c = collation.trans a.display_name b.display_name c.display_name

  count_trans :
      (a b c : PairedDevice)
      → Chain
          (by_count lower locale_compare counts a b)
          (by_count lower locale_compare counts b c)
          (by_count lower locale_compare counts a c)
  count_trans a b c =
      let key = count_of lower locale_compare counts in
      down_trans (key a) (key b) (key c) (locale_compare a.display_name b.display_name)
        (locale_compare b.display_name c.display_name)
        (locale_compare a.display_name c.display_name) (names_trans a b c)

  seen_trans :
      (a b c : PairedDevice)
      → Chain
          (by_seen lower locale_compare counts a b)
          (by_seen lower locale_compare counts b c)
          (by_seen lower locale_compare counts a c)
  seen_trans a b c =
      let key = seen_of lower locale_compare counts in
      down_trans_flipped (key a) (key b) (key c) (locale_compare a.display_name b.display_name)
        (locale_compare b.display_name c.display_name)
        (locale_compare a.display_name c.display_name) (names_trans a b c)

  list_trans :
      (a b c : PairedDevice)
      → Chain
          (compare_paired_devices_for_list lower locale_compare counts a b)
          (compare_paired_devices_for_list lower locale_compare counts b c)
          (compare_paired_devices_for_list lower locale_compare counts a c)
  unfolding compare_paired_devices_for_list
  list_trans a b c =
      let rank = paired_device_list_rank in
      let count = by_count lower locale_compare counts in
      let seen = by_seen lower locale_compare counts in
      up_trans (rank a) (rank b) (rank c) (if rank a == 0 then count a b else seen a b)
        (if rank b == 0 then count b c else seen b c) (if rank a == 0 then count a c else seen a c)
        (λ e f.
          pick_trans (rank a) (rank b) (count a b) (count b c) (count a c) (seen a b) (seen b c)
            (seen a c) e (count_trans a b c) (seen_trans a b c))

  -- If names are ordered by the locale, the comparison of devices is an order, and the list that is
  -- shown has the same devices in that order: none stands before one that it is after.
  pub sort_paired_devices_for_list-Sorted :
      (devices : List PairedDevice)
      → IsOrder (compare_paired_devices_for_list lower locale_compare counts)
        × Permᴰ (sort_paired_devices_for_list lower locale_compare devices counts) devices
        × Sorted
            (compare_paired_devices_for_list lower locale_compare counts)
            (sort_paired_devices_for_list lower locale_compare devices counts)
  unfolding sort_paired_devices_for_list
  sort_paired_devices_for_list-Sorted devices =
      let order = compare_paired_devices_for_list lower locale_compare counts in
      let is_order : IsOrder order = record { total = list-total; trans = list_trans } in
      (is_order, sort-Permᴰ order devices, sort-Sorted order is_order devices)

  -- How two devices may stand, the first before the second: by their ranks; among online devices by
  -- how often something was sent to them; among others of a rank by when they were last seen.
  abbrev pub Shown : PairedDevice → PairedDevice → Type 0
  Shown a b =
      (paired_device_list_rank a < paired_device_list_rank b)
      ⊎ ((paired_device_list_rank a ≡ paired_device_list_rank b)
          × (((paired_device_list_rank a ≡ 0)
                × (count_of lower locale_compare counts b ≤ count_of lower locale_compare counts a))
              ⊎ ((0 < paired_device_list_rank a)
                  × (seen_of lower locale_compare counts b
                      ≤ seen_of lower locale_compare counts a))))

  NotAfter-Shown :
      (a b : PairedDevice)
      → NotAfter (compare_paired_devices_for_list lower locale_compare counts) a b
      → Shown a b
  unfolding compare_paired_devices_for_list
  NotAfter-Shown a b h = ground arith

  abbrev pub AllShown : List PairedDevice → Type 0
  AllShown [] = Unit
  AllShown (a ∷ bs) = All (Shown a) bs × AllShown bs

  All-Shown :
      (a : PairedDevice) (bs : List PairedDevice)
      → All (NotAfter (compare_paired_devices_for_list lower locale_compare counts) a) bs
      → All (Shown a) bs
  All-Shown a [] h = tt
  All-Shown a (b ∷ bs) h = (NotAfter-Shown a b h.0, All-Shown a bs h.1)

  Sorted-AllShown :
      (bs : List PairedDevice)
      → Sorted (compare_paired_devices_for_list lower locale_compare counts) bs
      → AllShown bs
  Sorted-AllShown [] h = tt
  Sorted-AllShown (a ∷ bs) h = (All-Shown a bs h.0, Sorted-AllShown bs h.1)

  -- If names are ordered by the locale, the list shows online paired devices first, among them those
  -- to which more was sent first, then offline and then unpaired ones, the last seen of each first.
  pub sort_paired_devices_for_list-AllShown :
      (devices : List PairedDevice)
      → AllShown (sort_paired_devices_for_list lower locale_compare devices counts)
  sort_paired_devices_for_list-AllShown devices =
      Sorted-AllShown (sort_paired_devices_for_list lower locale_compare devices counts)
        (sort_paired_devices_for_list-Sorted devices).2

  count-total :
      (a b : PairedDevice)
      → is_after (by_count lower locale_compare counts a b) ≡ true
      → is_after (by_count lower locale_compare counts b a) ≡ false
  count-total a b h = ground (arith, collation.total a.display_name b.display_name)

  -- The settings list has the same devices, ordered by how much was sent to them, then by name.
  pub sort_paired_devices_for_settings-Sorted :
      (devices : List PairedDevice)
      → Permᴰ (sort_paired_devices_for_settings lower locale_compare devices counts) devices
        × Sorted
            (by_count lower locale_compare counts)
            (sort_paired_devices_for_settings lower locale_compare devices counts)
  unfolding sort_paired_devices_for_settings
  sort_paired_devices_for_settings-Sorted devices =
      let order = by_count lower locale_compare counts in
      let is_order : IsOrder order = record { total = count-total; trans = count_trans } in
      (sort-Permᴰ order devices, sort-Sorted order is_order devices)
