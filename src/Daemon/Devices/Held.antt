-- ===== src/Daemon/Devices/Held.antt =====
-- src/up-daemon.c: the references to a device that is removed.
use upower.Prelude.{ℕ, ◌+◌, ◌≤◌, ◌≡◌, ◌∙◌, some, arith, ◌==◌, if◌then◌else◌}
use upower.Prelude.Text.{Text}
use upower.Floating.{Floating}
use upower.MainLoop.{MainLoop}
use upower.DeviceList.{remove}
use upower.DeviceList.References.{held, remove-held}
use upower.Daemon.Action.{refresh_battery_devices}
use upower.Daemon.Action.Kept.{
  refresh_battery_devices-power_devices, update_warning_level-power_devices,
}
use upower.Daemon.Devices.{Objects, with_list, device_removed_cb}

module _ {D L : Type 0} ⦃f : Floating D⦄ ⦃m : MainLoop L⦄ where
  -- The devices that are left.
  pub device_removed_cb-power_devices :
      (path : Text) (device now : ℕ) (o : Objects D L)
      → (device_removed_cb (some path) device now o).system.daemon.power_devices
        ≡ (remove o.system.daemon.power_devices device o.refs).0
  unfolding device_removed_cb
  device_removed_cb-power_devices path device now o =
      let (list, refs, alive) = remove o.system.daemon.power_devices device o.refs in
      let s = (with_list o list refs).system in
      update_warning_level-power_devices (refresh_battery_devices s) now
      ∙ refresh_battery_devices-power_devices s

  -- When a device is removed, each object loses exactly the references that the list held to it and
  -- does not hold any more, and the device one more, the one that came with it. The device has an
  -- object path, and the references are those that are held.
  pub device_removed_cb-held :
      (path : Text) (device now : ℕ) (o : Objects D L) (x : ℕ)
      → held o.system.daemon.power_devices x + 1 ≤ o.refs x
      → (device_removed_cb (some path) device now o).refs x
          + held o.system.daemon.power_devices x
          + (if x == device then 1 else 0)
        ≡ o.refs x + held (remove o.system.daemon.power_devices device o.refs).0 x
  unfolding device_removed_cb
  device_removed_cb-held path device now o x h =
      ground (arith, remove-held o.system.daemon.power_devices device o.refs x, h)
