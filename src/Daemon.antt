-- ===== src/Daemon.antt =====
-- src/up-daemon.c: the state of the daemon, and the operations in the children.
pub mod Policy
pub mod Display
pub mod Action
pub mod Poll
pub mod Lifecycle
pub mod Devices
use upower.Prelude.{ℕ, Bool, List, map}
use upower.Prelude.Int.{ℤ}
use upower.Types.{DeviceKind, DeviceState, DeviceLevel}
use upower.Device.{Skeleton, UpDevice}
use upower.DeviceList.{DeviceList, Refs}

-- `TimeoutData`; the callback is a number, the address of a function.
pub record TimeoutData : Type 0 where
  pub id : ℕ
  pub timeout : ℕ
  pub callback : ℕ

-- The part of `UpDaemonPrivate` about the polling. The hash tables are lists with one entry for each
-- device.
pub record Polling : Type 0 where
  pub poll_timeouts : List (ℕ × TimeoutData)
  pub poll_paused : Bool
  pub idle_signals : List (ℕ × ℕ)

-- `UpDaemonPrivate`, with the exported properties of the daemon.
pub record Daemon (D : Type 0) : Type 0 where
  pub policy : Policy.Policy
  pub power_devices : DeviceList
  pub action_timeout_id : ℕ
  pub refresh_event_id : ℕ
  pub polling : Polling
  pub warning_level : DeviceLevel
  pub display_device : Skeleton D
  pub kind : DeviceKind
  pub state : DeviceState
  pub percentage : D
  pub energy : D
  pub energy_full : D
  pub energy_rate : D
  pub time_to_empty : ℤ
  pub time_to_full : ℤ
  pub on_battery : Bool
  pub lid_is_closed : Bool
  pub lid_is_present : Bool

-- The daemon among the devices, the main loop and the backend. `actions` counts the calls of
-- `up_backend_take_action`.
pub record System (D : Type 0) (L : Type 0) : Type 0 where
  pub daemon : Daemon D
  pub device : ℕ → UpDevice D
  pub loop : L
  pub actions : ℕ

-- The devices of the list, in its order.
abbrev pub devices : {D L : Type 0} → System D L → List (UpDevice D)
devices s = map s.device s.daemon.power_devices.array
