-- ===== src/Supply/Texts.antt =====
-- src/linux/up-device-supply.c: the attributes that are texts, and what is read from them.
pub mod Safe
use upower.Prelude.{
  ℕ, zero, suc, ◌+◌, Bool, false, not, ◌||◌, List, [], ◌∷◌, length, get_or, set, take, Option, none,
  some, String, ◌==◌, if◌then◌else◌,
}
use upower.Prelude.Text.{Text, codes, text_eq}
use upower.Storage.{Files}
use upower.Types.{DeviceState, DeviceTechnology}
use upower.Supply.{AsciiText}
use upower.Supply.Sysfs
use upower.Supply.Sysfs.{AsciiDouble, get_double, file_exists}

module _ ⦃a : AsciiText⦄ where
  -- Is the text one of these words, whatever their case?
  abbrev one_of : Text → List String → Bool
  one_of t [] = false
  one_of t (w ∷ ws) = a.strcasecmp t (codes w) || one_of t ws

  unfoldable pub convert_device_technology : Option Text → DeviceTechnology
  convert_device_technology none = DeviceTechnology.unknown
  convert_device_technology (some t) =
      if one_of t ("li-ion" ∷ "lion" ∷ [])
      then DeviceTechnology.lithium_ion
      else if one_of t ("pb" ∷ "pbac" ∷ [])
      then DeviceTechnology.lead_acid
      else if one_of t ("lip" ∷ "lipo" ∷ "li-poly" ∷ [])
      then DeviceTechnology.lithium_polymer
      else if one_of t ("nimh" ∷ [])
      then DeviceTechnology.nickel_metal_hydride
      else if one_of t ("life" ∷ [])
      then DeviceTechnology.lithium_iron_phosphate
      else DeviceTechnology.unknown

  -- The body of the loop that moves the printable characters to the front: `i` reads, `idx` writes.
  abbrev pub shunt_char : Text → ℕ → ℕ → ℕ → Text × ℕ
  shunt_char text i idx c =
      if a.isprint c
      then (if not (idx == i) then set text idx c else text, idx + 1)
      else (text, idx)

  -- The loop, on fuel. The end of a text reads as 0.
  unfoldable pub shunt : ℕ → Text → ℕ → ℕ → Text × ℕ
  shunt zero text i idx = (text, idx)
  shunt (suc fuel) text i idx =
      let c = get_or text i 0 in
      let (moved, next) = shunt_char text i idx c in
      let rest = shunt fuel moved (i + 1) next in if not (c == 0) then rest else (text, idx)

  -- A text is no longer than its loop, so the fuel is enough. The 0 that is written cuts it.
  unfoldable pub make_safe_text : Text → Text
  make_safe_text t =
      let (moved, idx) = shunt (length t + 1) t 0 0 in
      if a.utf8_validate t then t else take idx moved

  abbrev pub make_safe_string : Option Text → Option Text
  make_safe_string none = none
  make_safe_string (some t) = some (make_safe_text t)

-- An empty text is no value.
abbrev some_text : Text → Option Text
some_text [] = none
some_text (c ∷ cs) = some (c ∷ cs)

module _ ⦃a : AsciiText⦄ where
  unfoldable pub state_of_text : Option Text → DeviceState
  state_of_text none = DeviceState.unknown
  state_of_text (some t) =
      if a.strcasecmp t (codes "unknown") || text_eq t []
      then DeviceState.unknown
      else if a.strcasecmp t (codes "charging")
      then DeviceState.charging
      else if a.strcasecmp t (codes "discharging")
      then DeviceState.discharging
      else if a.strcasecmp t (codes "full")
      then DeviceState.fully_charged
      else if a.strcasecmp t (codes "empty")
      then DeviceState.empty
      else if a.strcasecmp t (codes "not charging")
      then DeviceState.pending_charge
      else DeviceState.unknown

module _ {S : Type 0} ⦃a : AsciiText⦄ ⦃fs : Files S⦄ where
  unfoldable pub get_string : S → Text → String → Option Text
  get_string disk path key = some_text (a.strstrip (Sysfs.get_string disk path key))

  unfoldable pub get_state : S → Text → DeviceState
  get_state disk path = state_of_text (get_string disk path "status")
