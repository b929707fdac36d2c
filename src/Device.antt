-- ===== src/Device.antt =====
-- src/up-device.c: the exported properties of a device, and what follows from a change of one.
pub mod Icon
pub mod Identity
pub mod Notify
pub mod Requests
pub mod Lifecycle
pub mod Warning
use upower.Prelude.{ℕ, Bool, true, false, Option, none, some, String}
use upower.Prelude.Int.{ℤ, pos}
use upower.Prelude.Text.{Text}
use upower.Floating.{Floating}
use upower.Types.{DeviceKind, DeviceState, DeviceTechnology, DeviceLevel}

-- The properties of org.freedesktop.UPower.Device (dbus/up-daemon-generated.h) that the modelled
-- code reads or writes. A `NULL` text is `none`.
pub record Skeleton (D : Type 0) : Type 0 where
  pub native_path : Option String
  pub vendor : Option Text
  pub model : Option Text
  pub serial : Option Text
  pub update_time : ℕ
  pub kind : DeviceKind
  pub power_supply : Bool
  pub has_history : Bool
  pub has_statistics : Bool
  pub online : Bool
  pub energy : D
  pub energy_empty : D
  pub energy_full : D
  pub energy_full_design : D
  pub energy_rate : D
  pub luminosity : D
  pub voltage : D
  pub charge : D
  pub charge_full : D
  pub charge_full_design : D
  pub time_to_empty : ℤ
  pub time_to_full : ℤ
  pub percentage : D
  pub temperature : D
  pub is_present : Bool
  pub state : DeviceState
  pub is_rechargeable : Bool
  pub capacity : D
  pub technology : DeviceTechnology
  pub warning_level : DeviceLevel
  pub battery_level : DeviceLevel
  pub icon_name : Option String

-- A zeroed property store, with the level that `up_device_init` sets.
abbrev pub new_skeleton : {D : Type 0} ⦃f : Floating D⦄ → Skeleton D
new_skeleton ⦃f⦄ = record {
  native_path = none;
  vendor = none;
  model = none;
  serial = none;
  update_time = 0;
  kind = DeviceKind.unknown;
  power_supply = false;
  has_history = false;
  has_statistics = false;
  online = false;
  energy = f.lit 0 1;
  energy_empty = f.lit 0 1;
  energy_full = f.lit 0 1;
  energy_full_design = f.lit 0 1;
  energy_rate = f.lit 0 1;
  luminosity = f.lit 0 1;
  voltage = f.lit 0 1;
  charge = f.lit 0 1;
  charge_full = f.lit 0 1;
  charge_full_design = f.lit 0 1;
  time_to_empty = pos 0;
  time_to_full = pos 0;
  percentage = f.lit 0 1;
  temperature = f.lit 0 1;
  is_present = false;
  state = DeviceState.unknown;
  is_rechargeable = false;
  capacity = f.lit 0 1;
  technology = DeviceTechnology.unknown;
  warning_level = DeviceLevel.unknown;
  battery_level = DeviceLevel.none;
  icon_name = none;
}

-- `UpDeviceClass`: the methods that a kind of device may leave out. A method gives `none` where
-- the C function returns `FALSE`.
pub record DeviceClass (D : Type 0) : Type 0 where
  pub on_battery_method : Option (Skeleton D → Option Bool)
  pub online_method : Option (Skeleton D → Option Bool)

pub record UpDevice (D : Type 0) : Type 0 where
  pub klass : DeviceClass D
  pub skeleton : Skeleton D

module _ {D : Type 0} where
  unfoldable pub call_method : Option (Skeleton D → Option Bool) → Skeleton D → Option Bool
  call_method none s = none
  call_method (some method) s = method s

  unfoldable pub get_on_battery : UpDevice D → Option Bool
  unfolding call_method
  get_on_battery device = call_method device.klass.on_battery_method device.skeleton

  unfoldable pub get_online : UpDevice D → Option Bool
  unfolding call_method
  get_online device = call_method device.klass.online_method device.skeleton
