-- ===== src/Backend.antt =====
-- src/linux/up-backend.c: the devices that udev reports, the critical action, and the sleep.
pub mod Critical
pub mod Events
pub mod Sleep
use upower.Prelude.{
  ℕ, zero, suc, Bool, true, false, not, ◌||◌, String, List, [], ◌∷◌, Option, none, some, ◌==◌,
  if◌then◌else◌,
}
use upower.Prelude.Int.{ℤ, negsuc, pos, ltb_ℤ, eqb_ℤ}
use upower.Prelude.Text.{Text, codes, text_eq}
use upower.MainLoop.{MainLoop}
use upower.Types.{DeviceLevel}
use upower.Floating.{Floating}
use upower.DeviceList.{DeviceList, Refs, object_unref, lookup, insert}
use upower.DeviceList
use upower.Daemon.{System}
use upower.Daemon.Policy.{Config}
use upower.Daemon.Lifecycle.{set_lid_is_present}
use upower.Daemon.Poll.{Signals, Poller, pause_poll, resume_poll}
use upower.Daemon.Devices.{Objects, device_added_cb, device_removed_cb}

-- The kinds of device that are tried for a device of udev.
pub data Driver : Type 0 where
  supply unifying wup idevice csr hid : Driver

-- The one for an input device is not among them. `have_idevice` is `HAVE_IDEVICE`.
unfoldable pub drivers : Bool → Text → List Driver
drivers have_idevice subsys =
    if text_eq subsys (codes "power_supply")
    then Driver.supply ∷ []
    else if text_eq subsys (codes "hid")
    then Driver.unifying ∷ []
    else if text_eq subsys (codes "tty")
    then Driver.wup ∷ []
    else if text_eq subsys (codes "usb") || text_eq subsys (codes "usbmisc")
    then (if have_idevice
        then Driver.idevice ∷ Driver.csr ∷ Driver.hid ∷ []
        else Driver.csr ∷ Driver.hid ∷ [])
    else []

-- A device of udev: its subsystem, and its path as the device list takes it.
pub record Native : Type 0 where
  pub subsys : Text
  pub native_path : Option String

-- `UpBackendPrivate` with the daemon that it works for. A `logind_inhibitor_fd` of -1 is none.
pub record Backend (D L G : Type 0) : Type 0 where
  pub objects : Objects D L
  pub signals : G
  pub managed_devices : DeviceList
  pub logind_inhibitor_fd : ℤ

-- What the backend finds: the start of a device, which makes it and gives its address unless it is
-- refused, and of an input device; the refresh of a device; its object path; and the configuration.
pub record Surroundings (D L G : Type 0) : Type 0 where
  pub start : Driver → Objects D L × G → Option ℕ × Objects D L × G
  pub start_input : Objects D L → ℕ × Bool × Objects D L
  pub refresh : ℕ → System D L → System D L
  pub object_path : ℕ → Option Text
  pub config : Config
  pub have_idevice : Bool

module _ {D L G : Type 0} where
  abbrev pub with_objects : Backend D L G → Objects D L → Backend D L G
  with_objects b o = record b { objects = o }

  abbrev pub with_refs : Backend D L G → Refs → Backend D L G
  with_refs b refs = record b { objects = record b.objects { refs = refs } }

  abbrev pub drop : ℕ → Backend D L G → Backend D L G
  drop d b = with_refs b (object_unref d b.objects.refs)

  -- An input device is a lid, and no device of the daemon.
  abbrev pub manage : Config → Native → ℕ → Backend D L G → Backend D L G
  manage config native input b =
      let present = set_lid_is_present config b.objects.system true in
      let (list, refs, ok) = insert b.managed_devices native.native_path input b.objects.refs in
      record b {
        objects = record b.objects { system = present; refs = refs };
        managed_devices = list;
      }

  abbrev pub input_new : Surroundings D L G → Native → Backend D L G → Option ℕ × Backend D L G
  input_new env native b =
      let (input, ret, objects) = env.start_input b.objects in
      let started = with_objects b objects in
      (none, drop input (if ret then manage env.config native input started else started))

  -- The first one that does not refuse the device.
  unfoldable pub try_drivers :
      Surroundings D L G → List Driver → Backend D L G → Option ℕ × Backend D L G
  try_drivers env [] b = (none, b)
  try_drivers env (driver ∷ rest) b =
      let (device, objects, signals) = env.start driver (b.objects, b.signals) in
      let started = record (with_objects b objects) { signals = signals } in
      let later = try_drivers env rest started in
      elim device [ none ↦ later | some d ↦ (some d, started) ]

  unfoldable pub device_new : Surroundings D L G → Native → Backend D L G → Option ℕ × Backend D L G
  unfolding drivers try_drivers
  device_new env native b =
      if text_eq native.subsys (codes "input")
      then input_new env native b
      else try_drivers env (drivers env.have_idevice native.subsys) b

  abbrev pub refresh_known : Surroundings D L G → ℕ → Backend D L G → Backend D L G
  refresh_known env d b =
      drop d (with_objects b (record b.objects { system = env.refresh d b.objects.system }))

  abbrev pub announce : Surroundings D L G → Native → Option ℕ × Backend D L G → Backend D L G
  announce env native (none, b) = b
  announce env native (some d, b) =
      with_objects b (device_added_cb native.native_path (env.object_path d) d b.objects)

  abbrev pub known : Native → Backend D L G → Option ℕ × Backend D L G
  known native b =
      let (object, refs) =
        lookup b.objects.system.daemon.power_devices native.native_path b.objects.refs in
      (object, with_refs b refs)

  -- The object that was looked up has a reference until the end. `changed` is `device_changed`, which
  -- looks it up again.
  abbrev pub add_known :
      Surroundings D L G
      → Native
      → (Backend D L G → Backend D L G)
      → Option ℕ × Backend D L G
      → Backend D L G
  add_known env native changed (none, b) = announce env native (device_new env native b)
  add_known env native changed (some d, b) = drop d (changed b)

  -- `add` is `device_add`.
  abbrev pub change_known :
      Surroundings D L G
      → (Backend D L G → Backend D L G)
      → Option ℕ × Backend D L G
      → Backend D L G
  change_known env add (none, b) = add b
  change_known env add (some d, b) = refresh_known env d b

  -- An add event for a device that is there is treated as a change event.
  unfoldable pub device_add :
      Surroundings D L G → Native → (Backend D L G → Backend D L G) → Backend D L G → Backend D L G
  unfolding device_new
  device_add env native changed b = add_known env native changed (known native b)

  -- A change event for a device that is not there is treated as an add event.
  unfoldable pub device_changed :
      Surroundings D L G → Native → (Backend D L G → Backend D L G) → Backend D L G → Backend D L G
  device_changed env native add b = change_known env add (known native b)

  -- The two functions, which call each other: `device_add` and `device_changed`, on fuel.
  unfoldable pub add_and_change :
      ℕ
      → Surroundings D L G
      → Native
      → (Backend D L G → Backend D L G) × (Backend D L G → Backend D L G)
  unfolding device_add device_changed
  add_and_change zero env native = ((λ b. b), λ b. b)
  add_and_change (suc fuel) env native =
      let (add, changed) = add_and_change fuel env native in
      (device_add env native changed, device_changed env native add)

module _ {D L G : Type 0} ⦃f : Floating D⦄ ⦃m : MainLoop L⦄ where
  abbrev pub remove_known : Surroundings D L G → ℕ → Option ℕ × Backend D L G → Backend D L G
  remove_known env now (none, b) = b
  remove_known env now (some d, b) =
      drop d (with_objects b (device_removed_cb (env.object_path d) d now b.objects))

  unfoldable pub device_remove : Surroundings D L G → Native → ℕ → Backend D L G → Backend D L G
  device_remove env native now b = remove_known env now (known native b)

  unfoldable pub uevent : Surroundings D L G → Text → Native → ℕ → Backend D L G → Backend D L G
  unfolding add_and_change device_remove
  uevent env action native now b =
      let (add, changed) = add_and_change 2 env native in
      if text_eq action (codes "add")
      then add b
      else if text_eq action (codes "remove")
      then device_remove env native now b
      else if text_eq action (codes "change")
      then changed b
      else b
