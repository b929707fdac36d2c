-- ===== src/Supply.antt =====
-- src/linux/up-device-supply.c: batteries, power lines and batteries of devices, as the kernel
-- shows them in sysfs. The state is here, the functions are in the children.
pub mod Sysfs
pub mod Rate
pub mod Texts
pub mod Attributes
pub mod Poll
pub mod Battery
pub mod Refresh
pub mod Lifecycle
pub mod Cases
pub mod Sound
pub mod Errors
pub mod Refusals
pub mod Answers
use upower.Prelude.{ℕ, Bool, List, Option}
use upower.Prelude.Int.{ℤ}
use upower.Prelude.Text.{Text}
use upower.Types.{DeviceLevel}
use upower.Device.{Skeleton, UpDevice}
use upower.Daemon.Poll.{Poller}

-- `RefreshResult`
pub data RefreshResult : Type 0 where
  failure success no_data : RefreshResult

-- `UpDeviceSupplyPrivate`; of a time stamp the seconds are used. `coldplug_units` is true for charge.
pub record Private (D : Type 0) : Type 0 where
  pub poll_timer_id : ℕ
  pub has_coldplug_values : Bool
  pub coldplug_units : Bool
  pub voltage_design : D
  pub voltage_min_design : D
  pub voltage_max_design : D
  pub energy_old : List D
  pub energy_old_timespec : List ℤ
  pub energy_old_first : ℕ
  pub rate_old : D
  pub unknown_retries : ℕ
  pub last_unknown_retry : ℤ
  pub disable_battery_poll : Bool
  pub is_power_supply : Bool
  pub shown_invalid_voltage_warning : Bool

-- The object, with its address, its exported properties, and the polling that it takes part in.
pub record Supply (D L G : Type 0) : Type 0 where
  pub address : ℕ
  pub priv : Private D
  pub skeleton : Skeleton D
  pub poller : Poller L G

-- `UP_DEVICE_SUPPLY_ENERGY_OLD_LENGTH`
abbrev pub energy_old_length : ℕ
energy_old_length = 4

-- GLib's functions on texts. `strcasecmp` answers whether two texts are equal but for their case.
pub record AsciiText : Type 0 where
  pub strcasecmp : Text → Text → Bool
  pub strstrip : Text → Text
  pub isprint : ℕ → Bool
  pub utf8_validate : Text → Bool

-- A device of another subsystem of udev: its own path, and its parent, whose path may be `NULL`.
pub record UdevDevice : Type 0 where
  pub sysfs_path : Text
  pub parent : Option (Option Text)
  pub is_mouse : Bool
  pub is_touchpad : Bool
  pub is_joystick : Bool

-- What a refresh finds around the device: the files, udev, the devices of the daemon, and the
-- clocks, which it may read twice for the energies.
pub record Surroundings (D S : Type 0) : Type 0 where
  pub disk : S
  pub scope : Option Text
  pub parent : Option (Option Text)
  pub inputs : List UdevDevice
  pub devices : List (UpDevice D)
  pub level : ℕ → DeviceLevel
  pub refresh_function : ℕ
  pub needs_poll_after_uevent : Bool
  pub rate_time : ℤ
  pub push_time : ℤ
  pub monotonic_time : ℤ
  pub real_time : ℕ
