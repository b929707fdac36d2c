-- ===== src/Daemon/Devices.antt =====
-- src/up-daemon.c: devices that come and go, the refresh of the batteries, the shutdown, and what
-- clients ask for.
pub mod Held
use upower.Prelude.{
  ℕ, Bool, true, ◌&&◌, List, [], ◌∷◌, ◌++◌, String, Option, none, some, if◌then◌else◌,
}
use upower.Prelude.Int.{pos}
use upower.Prelude.Text.{Text}
use upower.Floating.{Floating}
use upower.MainLoop.{MainLoop}
use upower.Types.{DeviceKind, DeviceState, DeviceLevel, kind_eq}
use upower.Device.{Skeleton, new_skeleton}
use upower.DeviceList.{DeviceList, Refs, object_unref, new, insert, remove, clear}
use upower.Daemon.{Daemon, System}
use upower.Daemon.Policy.{Config, load_policy}
use upower.Daemon.Action.{refresh_battery_devices, update_warning_level}

-- The signals of the daemon on the bus, with the path of the device.
pub data Emitted : Type 0 where
  device_added device_removed : Text → Emitted

-- The system with the references to its objects, the devices whose changes the daemon watches, the
-- signals that it emitted, and the daemon as the display device knows it.
pub record Objects (D L : Type 0) : Type 0 where
  pub system : System D L
  pub refs : Refs
  pub watched : List ℕ
  pub emitted : List Emitted
  pub display_daemon : Option ℕ

-- A device without an object path is in the list all the same.
abbrev pub announced : Option Text → Option Emitted
announced none = none
announced (some path) = some (device_added path)

module _ {D L : Type 0} where
  abbrev pub emit : Option Emitted → Objects D L → Objects D L
  emit none o = o
  emit (some e) o = record o { emitted = o.emitted ++ (e ∷ []) }

  abbrev pub with_list : Objects D L → DeviceList → Refs → Objects D L
  with_list o list refs = record o {
    system = record o.system { daemon = record o.system.daemon { power_devices = list } };
    refs = refs;
  }

  unfoldable pub device_added_cb : Option String → Option Text → ℕ → Objects D L → Objects D L
  device_added_cb native_path object_path device o =
      let (list, refs, ok) = insert o.system.daemon.power_devices native_path device o.refs in
      emit (announced object_path)
        (record (with_list o list refs) { watched = o.watched ++ (device ∷ []) })

module _ {D L : Type 0} ⦃f : Floating D⦄ ⦃m : MainLoop L⦄ where
  -- The function returns early for a device without an object path, and keeps its reference.
  abbrev pub let_go : ℕ → Option Text → ℕ → Objects D L → Objects D L
  let_go device none now o = o
  let_go device (some path) now o = record (emit (some (device_removed path)) o) {
    refs = object_unref device o.refs;
    system = update_warning_level (refresh_battery_devices o.system) now;
  }

  unfoldable pub device_removed_cb : Option Text → ℕ → ℕ → Objects D L → Objects D L
  device_removed_cb object_path device now o =
      let (list, refs, alive) = remove o.system.daemon.power_devices device o.refs in
      let_go device object_path now (with_list o list refs)

-- The paths as an array that `NULL` ends: a device without a path hides those behind it.
unfoldable pub enumerate_devices : (ℕ → Option Text) → List ℕ → List Text
enumerate_devices object_path [] = []
enumerate_devices object_path (d ∷ ds) =
    let rest = enumerate_devices object_path ds in
    elim (object_path d) [ none ↦ [] | some path ↦ path ∷ rest ]

module _ {D L : Type 0} where
  -- The loop over the devices; a refresh leaves the list as it is.
  unfoldable pub refresh_each : (ℕ → System D L → System D L) → List ℕ → System D L → System D L
  refresh_each refresh [] s = s
  refresh_each refresh (d ∷ ds) s =
      let skeleton = (s.device d).skeleton in
      let after =
        if kind_eq skeleton.kind DeviceKind.battery && skeleton.power_supply
        then refresh d s
        else s in
      refresh_each refresh ds after

  unfoldable pub clear_display_daemon : Objects D L → Objects D L
  clear_display_daemon o = elim o.display_daemon [
    | none ↦ o
    | some daemon ↦ record o { display_daemon = none; refs = object_unref daemon o.refs }
  ]

  -- `unplug` is the backend's function.
  unfoldable pub shutdown : (Objects D L → Objects D L) → Objects D L → Objects D L
  unfolding clear_display_daemon
  shutdown unplug o =
      let unplugged = unplug o in
      let (list, refs) = clear unplugged.system.daemon.power_devices true unplugged.refs in
      clear_display_daemon (with_list unplugged list refs)

module _ {D L : Type 0} ⦃m : MainLoop L⦄ where
  -- The idle source `i` calls the function, and goes as it returns `G_SOURCE_REMOVE`.
  unfoldable pub refresh_battery_devices_cb :
      (ℕ → System D L → System D L) → ℕ → System D L → System D L
  unfolding refresh_each
  refresh_battery_devices_cb refresh i s =
      let refreshed = refresh_each refresh s.daemon.power_devices.array s in
      record refreshed {
        daemon = record refreshed.daemon { refresh_event_id = 0 };
        loop = m.remove i refreshed.loop;
      }

module _ {D : Type 0} ⦃f : Floating D⦄ where
  -- A new daemon, with the policy of its configuration; GObject clears the rest.
  abbrev pub init : Config → Daemon D
  init config = record {
    policy = load_policy config;
    power_devices = new;
    action_timeout_id = 0;
    refresh_event_id = 0;
    polling = record { poll_timeouts = []; poll_paused = Bool.false; idle_signals = [] };
    warning_level = DeviceLevel.unknown;
    display_device = new_skeleton;
    kind = DeviceKind.unknown;
    state = DeviceState.unknown;
    percentage = f.lit 0 1;
    energy = f.lit 0 1;
    energy_full = f.lit 0 1;
    energy_rate = f.lit 0 1;
    time_to_empty = pos 0;
    time_to_full = pos 0;
    on_battery = Bool.false;
    lid_is_closed = Bool.false;
    lid_is_present = Bool.false;
  }
