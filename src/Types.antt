-- ===== src/Types.antt =====
-- libupower-glib/up-types.h: the enumerations that the daemon and its clients share.
pub mod Names
use upower.Prelude.{ℕ, ◌≡◌, Bool, true, arith, ◌==◌}

pub data DeviceKind : Type 0 where
  unknown line_power battery ups monitor mouse keyboard pda phone : DeviceKind
  media_player tablet computer gaming_input last : DeviceKind

pub data DeviceState : Type 0 where
  unknown charging discharging empty fully_charged pending_charge : DeviceState
  pending_discharge last : DeviceState

pub data DeviceTechnology : Type 0 where
  unknown lithium_ion lithium_polymer lithium_iron_phosphate lead_acid : DeviceTechnology
  nickel_cadmium nickel_metal_hydride last : DeviceTechnology

pub data DeviceLevel : Type 0 where
  unknown none discharging low critical action normal high full last : DeviceLevel

-- The numbers of the enumerators, in which C compares them.
abbrev pub kind_to_int : DeviceKind → ℕ
kind_to_int DeviceKind.unknown = 0
kind_to_int DeviceKind.line_power = 1
kind_to_int DeviceKind.battery = 2
kind_to_int DeviceKind.ups = 3
kind_to_int DeviceKind.monitor = 4
kind_to_int DeviceKind.mouse = 5
kind_to_int DeviceKind.keyboard = 6
kind_to_int DeviceKind.pda = 7
kind_to_int DeviceKind.phone = 8
kind_to_int DeviceKind.media_player = 9
kind_to_int DeviceKind.tablet = 10
kind_to_int DeviceKind.computer = 11
kind_to_int DeviceKind.gaming_input = 12
kind_to_int DeviceKind.last = 13

abbrev pub kind_eq : DeviceKind → DeviceKind → Bool
kind_eq a b = kind_to_int a == kind_to_int b

abbrev pub state_to_int : DeviceState → ℕ
state_to_int DeviceState.unknown = 0
state_to_int DeviceState.charging = 1
state_to_int DeviceState.discharging = 2
state_to_int DeviceState.empty = 3
state_to_int DeviceState.fully_charged = 4
state_to_int DeviceState.pending_charge = 5
state_to_int DeviceState.pending_discharge = 6
state_to_int DeviceState.last = 7

abbrev pub state_eq : DeviceState → DeviceState → Bool
state_eq a b = state_to_int a == state_to_int b

abbrev pub level_to_int : DeviceLevel → ℕ
level_to_int DeviceLevel.unknown = 0
level_to_int DeviceLevel.none = 1
level_to_int DeviceLevel.discharging = 2
level_to_int DeviceLevel.low = 3
level_to_int DeviceLevel.critical = 4
level_to_int DeviceLevel.action = 5
level_to_int DeviceLevel.normal = 6
level_to_int DeviceLevel.high = 7
level_to_int DeviceLevel.full = 8
level_to_int DeviceLevel.last = 9

abbrev pub level_eq : DeviceLevel → DeviceLevel → Bool
level_eq a b = level_to_int a == level_to_int b

pub state_eq_refl : (a : DeviceState) → state_eq a a ≡ true
state_eq_refl a = ground arith

pub kind_eq_refl : (a : DeviceKind) → kind_eq a a ≡ true
kind_eq_refl a = ground arith
