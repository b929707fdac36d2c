-- ===== src/Daemon/Action/Kept.antt =====
-- src/up-daemon.c: the warning level does not change which devices there are.
use upower.Prelude.{ℕ, ◌≡◌, refl, Bool, true, false, ◌&&◌, not, ◌==◌, ltb, if_both}
use upower.Floating.{Floating}
use upower.MainLoop.{MainLoop, take_action_timeout_cb, refresh_battery_devices_cb as callback}
use upower.Types.{DeviceLevel, level_eq}
use upower.DeviceList.{DeviceList}
use upower.Daemon.{System}
use upower.Daemon.Action.{
  action_delay, refresh_battery_devices, start_or_stop, show_level, set_warning_level,
  warning_level_of, get_warning_level_local, set_on_battery, update_warning_level,
}
use upower.Daemon.Display.Update.{
  get_on_battery_local, get_on_ac_local, update_display_battery, unchanged, current_totals,
  store_totals,
}

abbrev IsListed : {D L : Type 0} → DeviceList → System D L → Type 0
IsListed list s = s.daemon.power_devices ≡ list

module _ {D L : Type 0} ⦃m : MainLoop L⦄ where
  pub refresh_battery_devices-power_devices :
      (s : System D L) → (refresh_battery_devices s).daemon.power_devices ≡ s.daemon.power_devices
  unfolding refresh_battery_devices
  refresh_battery_devices-power_devices s =
      let (id, added) = m.add 0 callback s.loop in
      if_both (IsListed s.daemon.power_devices) (ltb 0 s.daemon.refresh_event_id) {x = s}
        {y = record s { daemon = record s.daemon { refresh_event_id = id }; loop = added }} refl
        refl

  start_or_stop-IsListed :
      (list : DeviceList) (s : System D L) → IsListed list s → IsListed list (start_or_stop s)
  unfolding start_or_stop
  start_or_stop-IsListed list s e =
      let (id, started) = m.add action_delay take_action_timeout_cb s.loop in
      let armed =
        if_both (IsListed list) (s.daemon.action_timeout_id == 0)
          {x = record s { daemon = record s.daemon { action_timeout_id = id }; loop = started }}
          {y = s} e e in
      let stopped =
        if_both (IsListed list) (ltb 0 s.daemon.action_timeout_id)
          {x = record s { loop = m.remove s.daemon.action_timeout_id s.loop }} {y = s} e e in
      if_both (IsListed list) (level_eq s.daemon.warning_level DeviceLevel.action) armed stopped

  set_warning_level-IsListed :
      (list : DeviceList) (s : System D L) (level : DeviceLevel) (now : ℕ)
      → IsListed list s
      → IsListed list (set_warning_level s level now)
  unfolding set_warning_level show_level
  set_warning_level-IsListed list s level now e =
      let shown = record s { daemon = show_level s.daemon level now } in
      if_both (IsListed list) (level_eq s.daemon.warning_level level) {x = s}
        {y = start_or_stop shown} e (start_or_stop-IsListed list shown e)

  module _ ⦃f : Floating D⦄ where
    display-IsListed :
        (s : System D L) (now : ℕ)
        → IsListed s.daemon.power_devices (update_display_battery s now).0
    unfolding update_display_battery store_totals
    display-IsListed s now =
        let P = λ (r : System D L × Bool). IsListed s.daemon.power_devices r.0 in
        if_both P (unchanged s.daemon (current_totals s)) {x = (s, false)}
          {y = (record s { daemon = store_totals s.daemon (current_totals s) now }, true)} refl refl

    pub update_warning_level-power_devices :
        (s : System D L) (now : ℕ)
        → (update_warning_level s now).daemon.power_devices ≡ s.daemon.power_devices
    unfolding update_warning_level get_warning_level_local set_on_battery
    update_warning_level-power_devices s now =
        let list = s.daemon.power_devices in
        let on = get_on_battery_local s && not (get_on_ac_local s) in
        let t = (update_display_battery (set_on_battery s on) now).0 in
        let shown = display-IsListed (set_on_battery s on) now in
        if_both (IsListed list) (level_eq (warning_level_of t) t.daemon.warning_level) {x = t}
          {y = set_warning_level t (warning_level_of t) now} shown
          (set_warning_level-IsListed list t (warning_level_of t) now shown)
