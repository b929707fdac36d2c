-- ===== src/Daemon/Action/Idle.antt =====
-- src/up-daemon.c: the idle source that refreshes the batteries.
use upower.Prelude.{
  ℕ, ◌≡◌, ◌≢◌, ◌&&◌, not, List, [], ◌∷◌, Bool-cases, inl, inr, arith, some, ◌==◌, ==→eq, ltb,
  if_both,
}
use upower.Floating.{Floating}
use upower.MainLoop.{
  MainLoop, IsMainLoop, take_action_timeout_cb, refresh_battery_devices_cb as callback,
}
use upower.Types.{DeviceKind, DeviceLevel, level_eq, kind_eq}
use upower.Daemon.{System}
use upower.Daemon.Action.{
  action_delay, refresh_battery_devices, start_or_stop, show_level, set_warning_level,
  warning_level_of, get_warning_level_local, set_on_battery, update_warning_level, device_changed,
}
use upower.Daemon.Display.Update.{
  get_on_battery_local, get_on_ac_local, update_display_battery, unchanged, current_totals,
  store_totals,
}
use upower.Daemon.Devices.{refresh_each, refresh_battery_devices_cb}

module _ {D L : Type 0} ⦃m : MainLoop L⦄ where
  -- The source that refreshes the batteries is the one that the daemon remembers.
  abbrev pub IsOnce : System D L → Type 0
  IsOnce s = (i : ℕ) → m.source i s.loop ≡ some callback → i ≡ s.daemon.refresh_event_id

  module _ (laws : IsMainLoop L) where
    open laws use {source-zero, source-add, source-remove, add-positive}

    refresh_battery_devices-IsOnce :
        (s : System D L) → IsOnce s → IsOnce (refresh_battery_devices s)
    unfolding refresh_battery_devices
    refresh_battery_devices-IsOnce s once i e =
        let (id, added) = m.add 0 callback s.loop in
        elim (Bool-cases (ltb 0 s.daemon.refresh_event_id)) [
          | inl pending ↦ rw pending (once i (ground (arith, e, pending)))
          | inr idle ↦ elim (Bool-cases (i == id)) [
            | inl new ↦ rw idle (==→eq i id new)
            | inr old ↦
                let before : m.source i s.loop ≡ some callback =
                  ground (arith, e, idle, old, source-add 0 callback s.loop i) in
                ground (arith, before, once i before, idle, source-zero s.loop)
          ]
        ]

    start_or_stop-IsOnce : (s : System D L) → IsOnce s → IsOnce (start_or_stop s)
    unfolding start_or_stop
    start_or_stop-IsOnce s once =
        let armed =
          if_both IsOnce (s.daemon.action_timeout_id == 0)
            {x = record s {
              daemon = record s.daemon {
                action_timeout_id = (m.add action_delay take_action_timeout_cb s.loop).0;
              };
              loop = (m.add action_delay take_action_timeout_cb s.loop).1;
            }}
            {y = s}
            (λ i e.
              once i (ground (arith, e, source-add action_delay take_action_timeout_cb s.loop i)))
            once in
        let stopped =
          if_both IsOnce (ltb 0 s.daemon.action_timeout_id)
            {x = record s { loop = m.remove s.daemon.action_timeout_id s.loop }} {y = s}
            (λ i e. once i (ground (arith, e, source-remove s.daemon.action_timeout_id s.loop i)))
            once in
        if_both IsOnce (level_eq s.daemon.warning_level DeviceLevel.action) armed stopped

    set_warning_level-IsOnce :
        (s : System D L) (level : DeviceLevel) (now : ℕ)
        → IsOnce s
        → IsOnce (set_warning_level s level now)
    unfolding set_warning_level show_level
    set_warning_level-IsOnce s level now once =
        if_both IsOnce (level_eq s.daemon.warning_level level) {x = s}
          {y = start_or_stop (record s { daemon = show_level s.daemon level now })} once
          (start_or_stop-IsOnce (record s { daemon = show_level s.daemon level now }) once)

    -- What the refresh of one device may do while the batteries are refreshed.
    abbrev IsQuiet : ℕ → (ℕ → System D L → System D L) → Type 0
    IsQuiet i refresh =
        (d : ℕ) (s : System D L)
        → IsOnce s
        → s.daemon.refresh_event_id ≡ i
        → IsOnce (refresh d s) × ((refresh d s).daemon.refresh_event_id ≡ i)

    refresh_each-IsOnce :
        (i : ℕ) (refresh : ℕ → System D L → System D L) (ds : List ℕ) (s : System D L)
        → IsQuiet i refresh
        → IsOnce s
        → s.daemon.refresh_event_id ≡ i
        → IsOnce (refresh_each refresh ds s)
          × ((refresh_each refresh ds s).daemon.refresh_event_id ≡ i)
    unfolding refresh_each
    refresh_each-IsOnce i refresh [] s quiet once same = (once, same)
    refresh_each-IsOnce i refresh (d ∷ ds) s quiet once same =
        let P = λ (t : System D L). IsOnce t × (t.daemon.refresh_event_id ≡ i) in
        let skeleton = (s.device d).skeleton in
        let (after, kept) =
          if_both P (kind_eq skeleton.kind DeviceKind.battery && skeleton.power_supply)
            {x = refresh d s} {y = s} (quiet d s once same) (once, same) in
        refresh_each-IsOnce i refresh ds _ quiet after kept

    -- When the idle source has refreshed the batteries, no refresh of them is pending, even if the
    -- refreshes changed what the daemon watches: a request in the meantime finds the source that
    -- runs. It is the one that the daemon remembers.
    pub refresh_battery_devices_cb-silent :
        (i j : ℕ) (refresh : ℕ → System D L → System D L) (s : System D L)
        → IsQuiet i refresh
        → IsOnce s
        → s.daemon.refresh_event_id ≡ i
        → m.source j (refresh_battery_devices_cb refresh i s).loop ≢ some callback
    unfolding refresh_battery_devices_cb
    refresh_battery_devices_cb-silent i j refresh s quiet once same e =
        let t = refresh_each refresh s.daemon.power_devices.array s in
        let (still, kept) =
          refresh_each-IsOnce i refresh s.daemon.power_devices.array s quiet once same in
        let removed = source-remove i t.loop j in
        elim (Bool-cases (j == i)) [
          | inl this ↦ ground (arith, e, removed, this)
          | inr other ↦
              let before : m.source j t.loop ≡ some callback = ground (arith, e, removed, other) in
              ground (arith, other, still j before, kept)
        ]

    module _ ⦃f : Floating D⦄ where
      display-IsOnce :
          (s : System D L) (now : ℕ) → IsOnce s → IsOnce (update_display_battery s now).0
      unfolding update_display_battery store_totals
      display-IsOnce s now once = elim (Bool-cases (unchanged s.daemon (current_totals s))) [
        | inl same ↦ rw same once
        | inr new ↦ rw new once
      ]

      update_warning_level-IsOnce :
          (s : System D L) (now : ℕ) → IsOnce s → IsOnce (update_warning_level s now)
      unfolding update_warning_level get_warning_level_local set_on_battery
      update_warning_level-IsOnce s now once =
          let on = get_on_battery_local s && not (get_on_ac_local s) in
          let t = (update_display_battery (set_on_battery s on) now).0 in
          let shown = display-IsOnce (set_on_battery s on) now once in
          if_both IsOnce (level_eq (warning_level_of t) t.daemon.warning_level) {x = t}
            {y = set_warning_level t (warning_level_of t) now} shown
            (set_warning_level-IsOnce t (warning_level_of t) now shown)

      -- However the devices change, at most one refresh of the batteries is pending.
      pub device_changed-IsOnce :
          (s : System D L) (device now : ℕ) → IsOnce s → IsOnce (device_changed s device now)
      unfolding device_changed
      device_changed-IsOnce s device now once = update_warning_level-IsOnce _ now (
          if_both IsOnce (kind_eq (s.device device).skeleton.kind DeviceKind.line_power)
            {x = refresh_battery_devices s} {y = s} (refresh_battery_devices-IsOnce s once) once)
