-- ===== src/Unifying.antt =====
-- src/linux/up-device-unifying.c: a wireless device of Logitech as the daemon sees it. What starts
-- it is in the children.
pub mod Coldplug
pub mod Ends
pub mod Started
use upower.Prelude.{
  ℕ, ◌/◌, Bool, true, false, not, ◌&&◌, ◌||◌, List, Option, none, some, ◌==◌, if◌then◌else◌,
}
use upower.Prelude.Text.{Text}
use upower.Floating.{Floating}
use upower.MainLoop.{MainLoop}
use upower.Types.{DeviceKind, DeviceState, DeviceLevel}
use upower.Device.{Skeleton}
use upower.Daemon.Poll.{Poller, Signals, stop_poll}
use upower.Hidpp.{HidppKind, BattStatus, Private, Hidraw}
use upower.Hidpp.Transport.{Error}
use upower.Hidpp.Queries.{Flags, Refresh}
use upower.Hidpp.Refresh.{Outcome, returned, fault, out_of_fuel, refresh}

-- The object, with its address, its exported properties, and the polling that it takes part in.
pub record Unifying (D L G : Type 0) : Type 0 where
  pub address : ℕ
  pub hidpp_device : Option (Private D)
  pub skeleton : Skeleton D
  pub poller : Poller L G

-- What a function comes to: it returns; or it reads the text of a `NULL` error, or the device below
-- crashes; or the fuel is out.
pub data Run (D L G O : Type 0) : Type 0 where
  finished : Bool → Unifying D L G → O → Run D L G O
  crashed : Run D L G O
  endless : Run D L G O

-- The state of the battery. An unknown status is an unknown state, and so is any of a device that is
-- out of reach.
unfoldable pub state_of : BattStatus → DeviceState
state_of BattStatus.charging = DeviceState.charging
state_of BattStatus.discharging = DeviceState.discharging
state_of BattStatus.charged = DeviceState.fully_charged
state_of BattStatus.unknown = DeviceState.unknown

unfoldable pub get_device_kind : HidppKind → DeviceKind
get_device_kind HidppKind.mouse = DeviceKind.mouse
get_device_kind HidppKind.touchpad = DeviceKind.mouse
get_device_kind HidppKind.trackball = DeviceKind.mouse
get_device_kind HidppKind.keyboard = DeviceKind.keyboard
get_device_kind HidppKind.tablet = DeviceKind.tablet
get_device_kind HidppKind.unknown = DeviceKind.unknown

module _ {D : Type 0} ⦃f : Floating D⦄ where
  abbrev pub set_light : Private D → Skeleton D → Skeleton D
  set_light p s = if f.le (f.lit 0 1) p.lux then record s { luminosity = p.lux } else s

  -- The clock shows microseconds.
  unfoldable pub set_battery : ℕ → Private D → Skeleton D → Skeleton D
  unfolding state_of
  set_battery real_time p s = record (set_light p s) {
    is_present = p.is_present;
    percentage = f.of_nat p.batt_percentage;
    state = if not p.is_present then DeviceState.unknown else state_of p.batt_status;
    update_time = real_time / 1000000;
  }

abbrev pub no_flags : Flags
no_flags = record {
  version = false;
  kind = false;
  battery = false;
  model = false;
  features = false;
  serial = false;
}

-- The version is asked for as long as it is not known.
abbrev pub refresh_flags : {D : Type 0} → Private D → Flags
refresh_flags p = record no_flags { battery = true; version = p.version == 0 }

abbrev pub with_device : {D L G : Type 0} → Unifying D L G → Private D → Unifying D L G
with_device u p = record u { hidpp_device = some p }

module _ {D L G O : Type 0} where
  -- A failure of the device is reported with its text.
  abbrev pub warned : Option Error → Run D L G O → Run D L G O
  warned none r = crashed
  warned (some e) r = r

abbrev pub show :
    {D L G : Type 0} ⦃f : Floating D⦄ → ℕ → Unifying D L G → Private D → Unifying D L G
show real_time u p = record (with_device u p) { skeleton = set_battery real_time p u.skeleton }

module _ {D L G O : Type 0} ⦃f : Floating D⦄ where
  -- The function returns TRUE whatever became of the device.
  abbrev pub refreshed : ℕ → Unifying D L G → Outcome D O → Run D L G O
  refreshed real_time u (returned true s) = finished true (show real_time u s.priv) s.os
  refreshed real_time u (returned false s) =
      warned s.error (finished true (with_device u s.priv) s.os)
  refreshed real_time u (fault s) = crashed
  refreshed real_time u out_of_fuel = endless

module _ {D L G O : Type 0} ⦃f : Floating D⦄ ⦃h : Hidraw O⦄ where
  -- `hidpp_device_refresh` refuses a `NULL` device, and sets no error.
  abbrev pub refresh_device : ℕ → ℕ → Unifying D L G → Option (Private D) → O → Run D L G O
  refresh_device fuel real_time u none os = crashed
  refresh_device fuel real_time u (some p) os =
      refreshed real_time u (refresh fuel (refresh_flags p) p os)

  unfoldable pub refresh_unifying : ℕ → ℕ → Unifying D L G → O → Run D L G O
  refresh_unifying fuel real_time u os = refresh_device fuel real_time u u.hidpp_device os

abbrev pub finalize_device :
    {D L O : Type 0} ⦃m : MainLoop L⦄ ⦃h : Hidraw O⦄ → Option (Private D) → L → O → L × O
finalize_device none loop os = (loop, os)
finalize_device (some p) loop os = upower.Hidpp.finalize p loop os

module _ {D L G O : Type 0} ⦃m : MainLoop L⦄ ⦃g : Signals G⦄ ⦃h : Hidraw O⦄ where
  unfoldable pub finalize : Unifying D L G → O → L × O
  finalize u os = finalize_device u.hidpp_device (stop_poll u.poller u.address).loop os
