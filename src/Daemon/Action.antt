-- ===== src/Daemon/Action.antt =====
-- src/up-daemon.c: the warning level of the system and the action that it may lead to.
pub mod Timer
pub mod Stale
pub mod Level
pub mod Idle
pub mod Kept
use upower.Prelude.{ℕ, suc, Bool, true, not, ◌&&◌, ltb, ◌==◌, if◌then◌else◌}
use upower.Floating.{Floating}
use upower.MainLoop.{MainLoop, take_action_timeout_cb, refresh_battery_devices_cb}
use upower.Types.{DeviceKind, DeviceState, DeviceLevel, kind_eq, state_eq, level_eq}
use upower.Device.{Skeleton}
use upower.Daemon.{Daemon, System}
use upower.Daemon.Policy.{compute_warning_level}
use upower.Daemon.Display.Update.{get_on_battery_local, get_on_ac_local, update_display_battery}

-- `UP_DAEMON_ACTION_DELAY`, in seconds.
abbrev pub action_delay : ℕ
action_delay = 20

module _ {D L : Type 0} ⦃f : Floating D⦄ where
  -- The level by the composite battery, once it is up to date.
  unfoldable pub warning_level_of : System D L → DeviceLevel
  warning_level_of s =
      let d = s.daemon in
      let computed =
        compute_warning_level d.policy d.state d.kind true d.percentage d.time_to_empty in
      if not (kind_eq d.kind DeviceKind.ups) && not (kind_eq d.kind DeviceKind.battery)
      then DeviceLevel.none
      else if kind_eq d.kind DeviceKind.ups && not (state_eq d.state DeviceState.discharging)
      then DeviceLevel.none
      else if kind_eq d.kind DeviceKind.battery && get_on_ac_local s
      then DeviceLevel.none
      else computed

  unfoldable pub get_warning_level_local : System D L → ℕ → System D L × DeviceLevel
  get_warning_level_local s now =
      let s' = (update_display_battery s now).0 in (s', warning_level_of s')

module _ {D : Type 0} where
  show_level : Daemon D → DeviceLevel → ℕ → Daemon D
  show_level d level now = record d {
    warning_level = level;
    display_device = record d.display_device { warning_level = level; update_time = now };
  }

module _ {D L : Type 0} where
  unfoldable pub set_on_battery : System D L → Bool → System D L
  set_on_battery s on = record s { daemon = record s.daemon { on_battery = on } }

module _ {D L : Type 0} ⦃m : MainLoop L⦄ where
  open m use {add, remove}

  -- The loop calls the function for the source `i`, and drops the source afterwards, since the
  -- function returns `G_SOURCE_REMOVE`.
  unfoldable pub take_action_timeout : System D L → ℕ → System D L
  take_action_timeout s i = record s {
    daemon = record s.daemon { action_timeout_id = 0 };
    loop = remove i s.loop;
    actions = suc s.actions;
  }

  -- The timer follows the level.
  start_or_stop : System D L → System D L
  start_or_stop s =
      let (id, started) = add action_delay take_action_timeout_cb s.loop in
      if level_eq s.daemon.warning_level DeviceLevel.action
      then (if s.daemon.action_timeout_id == 0
          then record s { daemon = record s.daemon { action_timeout_id = id }; loop = started }
          else s)
      else if ltb 0 s.daemon.action_timeout_id
      then record s { loop = remove s.daemon.action_timeout_id s.loop }
      else s

  unfoldable pub set_warning_level : System D L → DeviceLevel → ℕ → System D L
  unfolding show_level start_or_stop
  set_warning_level s level now =
      if level_eq s.daemon.warning_level level
      then s
      else start_or_stop (record s { daemon = show_level s.daemon level now })

  unfoldable pub refresh_battery_devices : System D L → System D L
  refresh_battery_devices s =
      let (id, added) = add 0 refresh_battery_devices_cb s.loop in
      if ltb 0 s.daemon.refresh_event_id
      then s
      else record s { daemon = record s.daemon { refresh_event_id = id }; loop = added }

module _ {D L : Type 0} ⦃f : Floating D⦄ ⦃m : MainLoop L⦄ where
  unfoldable pub update_warning_level : System D L → ℕ → System D L
  update_warning_level s now =
      let on = get_on_battery_local s && not (get_on_ac_local s) in
      let (s', level) = get_warning_level_local (set_on_battery s on) now in
      if level_eq level s'.daemon.warning_level then s' else set_warning_level s' level now

  -- The kind is that of the device whose property changed.
  unfoldable pub device_changed : System D L → ℕ → ℕ → System D L
  device_changed s device now =
      let refreshed =
        if kind_eq (s.device device).skeleton.kind DeviceKind.line_power
        then refresh_battery_devices s
        else s in
      update_warning_level refreshed now
