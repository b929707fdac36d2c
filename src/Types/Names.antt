-- ===== src/Types/Names.antt =====
-- libupower-glib/up-types.c: the texts of the enumerators and back. A `NULL` text is `none`.
use upower.Prelude.{◌≡◌, refl, ◌≢◌, Option, none, some, arith, if◌then◌else◌}
use upower.Prelude.Text.{Text, codes, text_eq, text_eq_iff}
use upower.Types.{DeviceKind, DeviceState, DeviceTechnology, DeviceLevel}

unfoldable pub kind_to_string : DeviceKind → Text
kind_to_string DeviceKind.line_power = codes "line-power"
kind_to_string DeviceKind.battery = codes "battery"
kind_to_string DeviceKind.ups = codes "ups"
kind_to_string DeviceKind.monitor = codes "monitor"
kind_to_string DeviceKind.mouse = codes "mouse"
kind_to_string DeviceKind.keyboard = codes "keyboard"
kind_to_string DeviceKind.pda = codes "pda"
kind_to_string DeviceKind.phone = codes "phone"
kind_to_string DeviceKind.media_player = codes "media-player"
kind_to_string DeviceKind.tablet = codes "tablet"
kind_to_string DeviceKind.computer = codes "computer"
kind_to_string DeviceKind.gaming_input = codes "gaming-input"
kind_to_string _ = codes "unknown"

unfoldable pub kind_from_string : Option Text → DeviceKind
kind_from_string none = DeviceKind.unknown
kind_from_string (some type) =
    if text_eq type (codes "line-power")
    then DeviceKind.line_power
    else if text_eq type (codes "battery")
    then DeviceKind.battery
    else if text_eq type (codes "ups")
    then DeviceKind.ups
    else if text_eq type (codes "monitor")
    then DeviceKind.monitor
    else if text_eq type (codes "mouse")
    then DeviceKind.mouse
    else if text_eq type (codes "keyboard")
    then DeviceKind.keyboard
    else if text_eq type (codes "pda")
    then DeviceKind.pda
    else if text_eq type (codes "phone")
    then DeviceKind.phone
    else if text_eq type (codes "media-player")
    then DeviceKind.media_player
    else if text_eq type (codes "tablet")
    then DeviceKind.tablet
    else if text_eq type (codes "gaming-input")
    then DeviceKind.gaming_input
    else DeviceKind.unknown

unfoldable pub state_to_string : DeviceState → Text
state_to_string DeviceState.charging = codes "charging"
state_to_string DeviceState.discharging = codes "discharging"
state_to_string DeviceState.empty = codes "empty"
state_to_string DeviceState.fully_charged = codes "fully-charged"
state_to_string DeviceState.pending_charge = codes "pending-charge"
state_to_string DeviceState.pending_discharge = codes "pending-discharge"
state_to_string _ = codes "unknown"

unfoldable pub state_from_string : Option Text → DeviceState
state_from_string none = DeviceState.unknown
state_from_string (some state) =
    if text_eq state (codes "charging")
    then DeviceState.charging
    else if text_eq state (codes "discharging")
    then DeviceState.discharging
    else if text_eq state (codes "empty")
    then DeviceState.empty
    else if text_eq state (codes "fully-charged")
    then DeviceState.fully_charged
    else if text_eq state (codes "pending-charge")
    then DeviceState.pending_charge
    else if text_eq state (codes "pending-discharge")
    then DeviceState.pending_discharge
    else DeviceState.unknown

unfoldable pub technology_to_string : DeviceTechnology → Text
technology_to_string DeviceTechnology.lithium_ion = codes "lithium-ion"
technology_to_string DeviceTechnology.lithium_polymer = codes "lithium-polymer"
technology_to_string DeviceTechnology.lithium_iron_phosphate = codes "lithium-iron-phosphate"
technology_to_string DeviceTechnology.lead_acid = codes "lead-acid"
technology_to_string DeviceTechnology.nickel_cadmium = codes "nickel-cadmium"
technology_to_string DeviceTechnology.nickel_metal_hydride = codes "nickel-metal-hydride"
technology_to_string _ = codes "unknown"

unfoldable pub technology_from_string : Option Text → DeviceTechnology
technology_from_string none = DeviceTechnology.unknown
technology_from_string (some technology) =
    if text_eq technology (codes "lithium-ion")
    then DeviceTechnology.lithium_ion
    else if text_eq technology (codes "lithium-polymer")
    then DeviceTechnology.lithium_polymer
    else if text_eq technology (codes "lithium-iron-phosphate")
    then DeviceTechnology.lithium_iron_phosphate
    else if text_eq technology (codes "lead-acid")
    then DeviceTechnology.lead_acid
    else if text_eq technology (codes "nickel-cadmium")
    then DeviceTechnology.nickel_cadmium
    else if text_eq technology (codes "nickel-metal-hydride")
    then DeviceTechnology.nickel_metal_hydride
    else DeviceTechnology.unknown

unfoldable pub level_to_string : DeviceLevel → Text
level_to_string DeviceLevel.unknown = codes "unknown"
level_to_string DeviceLevel.none = codes "none"
level_to_string DeviceLevel.discharging = codes "discharging"
level_to_string DeviceLevel.low = codes "low"
level_to_string DeviceLevel.critical = codes "critical"
level_to_string DeviceLevel.action = codes "action"
level_to_string DeviceLevel.normal = codes "normal"
level_to_string DeviceLevel.high = codes "high"
level_to_string DeviceLevel.full = codes "full"
level_to_string DeviceLevel.last = codes "unknown"

unfoldable pub level_from_string : Option Text → DeviceLevel
level_from_string none = DeviceLevel.unknown
level_from_string (some level) =
    if text_eq level (codes "unknown")
    then DeviceLevel.unknown
    else if text_eq level (codes "none")
    then DeviceLevel.none
    else if text_eq level (codes "discharging")
    then DeviceLevel.discharging
    else if text_eq level (codes "low")
    then DeviceLevel.low
    else if text_eq level (codes "critical")
    then DeviceLevel.critical
    else if text_eq level (codes "action")
    then DeviceLevel.action
    else if text_eq level (codes "normal")
    then DeviceLevel.normal
    else if text_eq level (codes "high")
    then DeviceLevel.high
    else if text_eq level (codes "full")
    then DeviceLevel.full
    else DeviceLevel.unknown

-- Reading back the text of a kind gives that kind, for every kind but `computer` (whose text
-- the reader does not know) and the sentinel `last`.
kind_from_string-kind_to_string :
    (k : DeviceKind)
    → k ≢ DeviceKind.computer
    → k ≢ DeviceKind.last
    → kind_from_string (some (kind_to_string k)) ≡ k
unfolding kind_from_string kind_to_string
kind_from_string-kind_to_string DeviceKind.computer h _ = absurd (h refl)
kind_from_string-kind_to_string DeviceKind.last _ h = absurd (h refl)
kind_from_string-kind_to_string _ _ _ = refl

pub state_from_string-state_to_string :
    (s : DeviceState) → s ≢ DeviceState.last → state_from_string (some (state_to_string s)) ≡ s
unfolding state_from_string state_to_string
state_from_string-state_to_string DeviceState.last h = absurd (h refl)
state_from_string-state_to_string _ _ = refl

level_from_string-level_to_string :
    (l : DeviceLevel) → l ≢ DeviceLevel.last → level_from_string (some (level_to_string l)) ≡ l
unfolding level_from_string level_to_string
level_from_string-level_to_string DeviceLevel.last h = absurd (h refl)
level_from_string-level_to_string _ _ = refl

technology_from_string-technology_to_string :
    (t : DeviceTechnology)
    → t ≢ DeviceTechnology.last
    → technology_from_string (some (technology_to_string t)) ≡ t
unfolding technology_from_string technology_to_string
technology_from_string-technology_to_string DeviceTechnology.last h = absurd (h refl)
technology_from_string-technology_to_string _ _ = refl

-- A text that names a kind at all is the text of the kind that it names.
kind_to_string-kind_from_string :
    (s : Text)
    → kind_from_string (some s) ≢ DeviceKind.unknown
    → kind_to_string (kind_from_string (some s)) ≡ s
unfolding kind_from_string kind_to_string
kind_to_string-kind_from_string s h = ground (
  arith,
  text_eq_iff s (codes "line-power"),
  text_eq_iff s (codes "battery"),
  text_eq_iff s (codes "ups"),
  text_eq_iff s (codes "monitor"),
  text_eq_iff s (codes "mouse"),
  text_eq_iff s (codes "keyboard"),
  text_eq_iff s (codes "pda"),
  text_eq_iff s (codes "phone"),
  text_eq_iff s (codes "media-player"),
  text_eq_iff s (codes "tablet"),
  text_eq_iff s (codes "gaming-input"),
)
