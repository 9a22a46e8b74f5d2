-- ===== src/Pairing/Labels.antt =====
-- frontend/src/lib/pairing-api.ts: the labels of devices, and their search. `toLowerCase` is a parameter.
use alt_sendme.Prelude.{
  Bool, true, ◌||◌, Text, text_eq, codes, Option, some, List, [], ◌∷◌, ◌++◌, or_else, trim,
  is_empty, if◌then◌else◌,
}
use alt_sendme.Pairing.Devices.{PairedDevice, is_paired_device_active}
use alt_sendme.Web.Files.{starts_with}

-- `a || b` on strings
abbrev or_text : Text → Text → Text
or_text a b = if is_empty a then b else a

-- The label of the first entry with the name, or `other`.
abbrev label_of : List (Text × Text) → Text → Text → Text
label_of [] name other = other
label_of ((known, label) ∷ labels) name other =
    if text_eq known name then label else label_of labels name other

abbrev os_labels : List (Text × Text)
os_labels =
    (codes "macos", codes "macOS")
    ∷ (codes "windows", codes "Windows")
    ∷ (codes "linux", codes "Linux")
    ∷ (codes "ios", codes "iOS")
    ∷ (codes "android", codes "Android")
    ∷ []

abbrev type_labels : List (Text × Text)
type_labels =
    (codes "laptop", codes "Laptop")
    ∷ (codes "desktop", codes "Desktop")
    ∷ (codes "phone", codes "Phone")
    ∷ (codes "tablet", codes "Tablet")
    ∷ []

-- `text.includes(part)`
unfoldable pub includes : Text → Text → Bool
includes part [] = is_empty part
includes part (c ∷ text) = starts_with part (c ∷ text) || includes part text

abbrev join_spaces : List Text → Text
join_spaces [] = []
join_spaces (part ∷ []) = part
join_spaces (part ∷ other ∷ parts) = part ++ (codes " " ++ join_spaces (other ∷ parts))

module _ (lower : Text → Text) where
  unfoldable pub format_os_label : Option Text → Text
  unfolding text_eq trim
  format_os_label os = let name = or_else os [] in label_of os_labels (lower name) (trim name)

  unfoldable pub format_device_type_label : Option Text → Text
  unfolding text_eq trim
  format_device_type_label device_type =
      let name = or_else device_type [] in
      label_of type_labels (lower name) (or_text (trim name) (codes "Device"))

  unfoldable pub device_subtitle : PairedDevice → Text
  unfolding format_os_label format_device_type_label
  device_subtitle device =
      let type_label = format_device_type_label (some device.device_type) in
      let os_label = format_os_label (some device.os) in
      if is_empty os_label then type_label else type_label ++ (codes " " ++ os_label)

  abbrev searchable : PairedDevice → Text
  searchable device = lower (
      join_spaces (
        device.display_name
        ∷ device.device_type
        ∷ device.os
        ∷ format_device_type_label (some device.device_type)
        ∷ format_os_label (some device.os)
        ∷ device_subtitle device
        ∷ (if device.online then codes "online" else codes "offline")
        ∷ (if is_paired_device_active device then codes "active" else codes "unpaired")
        ∷ []))

  unfoldable pub matches_paired_device_search : PairedDevice → Text → Bool
  unfolding device_subtitle includes trim is_paired_device_active
  matches_paired_device_search device query =
      let normalized = lower (trim query) in
      if is_empty normalized then true else includes normalized (searchable device)
