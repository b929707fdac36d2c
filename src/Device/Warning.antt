-- ===== src/Device/Warning.antt =====
-- src/up-device.c, `update_warning_level`.
use upower.Prelude.{not, ◌&&◌, Option, none, some, if◌then◌else◌}
use upower.Floating.{Floating}
use upower.Types.{DeviceLevel, level_eq}
use upower.Daemon.Policy.{Policy, compute_warning_level}
use upower.Device.{Skeleton}

module _ {D : Type 0} ⦃f : Floating D⦄ where
  -- The first argument is the configuration of the daemon, `none` before the device is set up.
  unfoldable pub update_warning_level : Option Policy → Skeleton D → Skeleton D
  update_warning_level none s = s
  update_warning_level (some p) s =
      let computed =
        compute_warning_level p s.state s.kind s.power_supply s.percentage s.time_to_empty in
      record s {
        warning_level =
            if not (level_eq s.battery_level DeviceLevel.none)
              && not (level_eq s.battery_level DeviceLevel.critical)
            then (if level_eq s.battery_level DeviceLevel.low
                then s.battery_level
                else DeviceLevel.none)
            else computed;
      }
