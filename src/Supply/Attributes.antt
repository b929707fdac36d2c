-- ===== src/Supply/Attributes.antt =====
-- src/linux/up-device-supply.c: the voltage of the design, the units, the level of the capacity and
-- the kind of a device, from its attributes.
use upower.Prelude.{
  ℕ, Bool, true, false, not, ◌||◌, List, [], ◌∷◌, without_last, Option, none, some, String,
  if◌then◌else◌,
}
use upower.Prelude.Text.{Text, codes, text_eq, has_part}
use upower.Floating.{Floating}
use upower.Storage.{Files}
use upower.Types.{DeviceKind, DeviceLevel}
use upower.Supply.{AsciiText, UdevDevice}
use upower.Supply.Sysfs
use upower.Supply.Sysfs.{AsciiDouble, get_double, file_exists}
use upower.Supply.Texts.{get_string}

-- The text of `capacity_level`, with its percentage.
abbrev levels : List (String × ℕ × DeviceLevel)
levels =
    ("Normal", 55, DeviceLevel.normal)
    ∷ ("High", 70, DeviceLevel.high)
    ∷ ("Low", 10, DeviceLevel.low)
    ∷ ("Critical", 5, DeviceLevel.critical)
    ∷ ("Full", 100, DeviceLevel.full)
    ∷ ("Unknown", 50, DeviceLevel.unknown)
    ∷ []

-- `str[len - 1] = '\0'`; `none` is the write in front of an empty text.
abbrev cut_last : Text → Option Text
cut_last [] = none
cut_last (c ∷ cs) = some (without_last (c ∷ cs))

module _ {D : Type 0} ⦃f : Floating D⦄ where
  find_level : Text → List (String × ℕ × DeviceLevel) → D × DeviceLevel
  find_level str [] = (f.neg (f.lit 1 1), DeviceLevel.unknown)
  find_level str ((name, percentage, level) ∷ rest) =
      let later = find_level str rest in
      if text_eq (codes name) str then (f.lit percentage 1, level) else later

  abbrev level_of : Option Text → Option (D × DeviceLevel)
  level_of none = none
  level_of (some str) = some (find_level str levels)

module _ {D S : Type 0} ⦃f : Floating D⦄ ⦃fs : Files S⦄ where
  -- `none` is a write out of bounds.
  unfoldable pub get_capacity_level : S → Text → Option (D × DeviceLevel)
  unfolding find_level
  get_capacity_level disk path =
      if not (file_exists disk path "capacity_level")
      then some (f.neg (f.lit 1 1), DeviceLevel.none)
      else level_of (cut_last (Sysfs.get_string disk path "capacity_level"))

module _ {D S : Type 0} ⦃f : Floating D⦄ ⦃n : AsciiDouble D⦄ ⦃fs : Files S⦄ where
  -- An attribute in millionths.
  abbrev pub get_micro : S → Text → String → D
  get_micro disk path attribute = f.div (get_double disk path attribute) (f.lit 1000000 1)

module _ ⦃a : AsciiText⦄ where
  abbrev is_usb : Option Text → Bool
  is_usb none = false
  is_usb (some t) = a.strcasecmp t (codes "USB")

module _ {S : Type 0} ⦃fs : Files S⦄ where
  unfoldable pub units_changed : Bool → S → Text → Bool
  units_changed coldplug_units disk path =
      if coldplug_units
      then not (file_exists disk path "charge_now" || file_exists disk path "charge_avg")
      else not (file_exists disk path "energy_now" || file_exists disk path "energy_avg")

module _ {D S : Type 0} ⦃f : Floating D⦄ ⦃n : AsciiDouble D⦄ ⦃a : AsciiText⦄ ⦃fs : Files S⦄ where
  -- The voltage, and whether the warning of a guess has been shown.
  unfoldable pub get_design_voltage : S → Text → Bool → D × Bool
  get_design_voltage disk path shown =
      let max_design = get_micro disk path "voltage_max_design" in
      let min_design = get_micro disk path "voltage_min_design" in
      let present = get_micro disk path "voltage_present" in
      let now = get_micro disk path "voltage_now" in
      if f.lt (f.litf 1 1) max_design
      then (max_design, shown)
      else if f.lt (f.litf 1 1) min_design
      then (min_design, shown)
      else if f.lt (f.litf 1 1) present
      then (present, shown)
      else if f.lt (f.litf 1 1) now
      then (now, shown)
      else if is_usb (get_string disk path "type")
      then (f.litf 5 1, shown)
      else (f.litf 10 1, true)

-- `g_strcmp0`, where it answers 0.
abbrev strcmp0 : Option Text → Option Text → Bool
strcmp0 none none = true
strcmp0 (some s) (some t) = text_eq s t
strcmp0 _ _ = false

-- A device without a parent is passed over.
abbrev child_of : Option Text → Option (Option Text) → Bool
child_of path none = false
child_of path (some other) = strcmp0 other path

find_child : Option Text → List UdevDevice → Option UdevDevice
find_child path [] = none
find_child path (d ∷ ds) =
    let later = find_child path ds in if child_of path d.parent then some d else later

-- The first device of the other subsystem that has the same parent.
unfoldable pub get_sibling : Option (Option Text) → List UdevDevice → Option UdevDevice
unfolding find_child
get_sibling none ds = none
get_sibling (some path) ds = find_child path ds

abbrev kind_of_sibling : Option UdevDevice → DeviceKind
kind_of_sibling none = DeviceKind.battery
kind_of_sibling (some d) =
    if d.is_mouse || d.is_touchpad
    then DeviceKind.mouse
    else if d.is_joystick
    then DeviceKind.gaming_input
    else DeviceKind.keyboard

module _ ⦃a : AsciiText⦄ where
  kind_of_type : Option UdevDevice → Text → Option Text → DeviceKind
  kind_of_type sibling path none = DeviceKind.unknown
  kind_of_type sibling path (some t) =
      if a.strcasecmp t (codes "mains")
      then DeviceKind.line_power
      else if a.strcasecmp t (codes "battery")
      then kind_of_sibling sibling
      else if a.strcasecmp t (codes "USB")
      then (if has_part (codes "wacom_") path then DeviceKind.tablet else DeviceKind.unknown)
      else DeviceKind.unknown

module _ {S : Type 0} ⦃a : AsciiText⦄ ⦃fs : Files S⦄ where
  unfoldable pub guess_type : S → Text → Option UdevDevice → DeviceKind
  unfolding kind_of_type
  guess_type disk path sibling = kind_of_type sibling path (get_string disk path "type")
