-- ===== src/Daemon/Lifecycle.antt =====
-- src/up-daemon.c: the start and the end of the daemon, and the lid.
use upower.Prelude.{
  ℕ, ◌≡◌, refl, ◌≢◌, Bool, true, false, not, ◌&&◌, ◌==◌, some, if◌then◌else◌, Bool-cases, inl, inr,
  ◌∙◌, sym, arith,
}
use upower.Floating.{Floating}
use upower.MainLoop.{MainLoop, IsMainLoop, Callback, take_action_timeout_cb}
use upower.Daemon.{System}
use upower.Daemon.Policy.{Config}
use upower.Daemon.Display.Update.{get_on_battery_local, get_on_ac_local, update_display_battery}
use upower.Daemon.Action.{
  warning_level_of, get_warning_level_local, set_on_battery, set_warning_level,
}
use upower.Daemon.Action.Level.{set_warning_level_level}
use upower.Daemon.Action.Timer.{IsSingle}

module _ {D L : Type 0} where
  -- The lid is not reported if the configuration says to ignore it.
  unfoldable pub set_lid_is_closed : Config → System D L → Bool → System D L
  set_lid_is_closed config s closed =
      if config.get_boolean "IgnoreLid"
      then s
      else record s { daemon = record s.daemon { lid_is_closed = closed } }

  unfoldable pub set_lid_is_present : Config → System D L → Bool → System D L
  set_lid_is_present config s present =
      if config.get_boolean "IgnoreLid"
      then s
      else record s { daemon = record s.daemon { lid_is_present = present } }

module _ {L : Type 0} ⦃m : MainLoop L⦄ where
  -- A source that is remembered is removed.
  abbrev drop_source : ℕ → L → L
  drop_source id loop = if not (id == 0) then m.remove id loop else loop

module _ {D L : Type 0} ⦃m : MainLoop L⦄ where
  unfoldable pub finalize : System D L → L
  finalize s = drop_source s.daemon.refresh_event_id (drop_source s.daemon.action_timeout_id s.loop)

module _ {D L : Type 0} ⦃f : Floating D⦄ ⦃m : MainLoop L⦄ where
  -- `registered` is whether the bus took the daemon, and `coldplug` the backend's function, which
  -- adds the devices that are there.
  unfoldable pub startup :
      Bool → (System D L → System D L × Bool) → System D L → ℕ → System D L × Bool
  startup registered coldplug s now =
      let (plugged, ok) = coldplug s in
      let on = get_on_battery_local plugged && not (get_on_ac_local plugged) in
      let (shown, level) = get_warning_level_local plugged now in
      if not registered
      then (s, false)
      else if not ok
      then (plugged, false)
      else (set_warning_level (set_on_battery shown on) level now, true)

  warning_level_of-set_on_battery :
      (s : System D L) (on : Bool) → warning_level_of (set_on_battery s on) ≡ warning_level_of s
  unfolding warning_level_of set_on_battery get_on_ac_local
  warning_level_of-set_on_battery s on = refl

  -- A daemon that started shows whether it is on battery by the devices that the backend found, and
  -- the warning level of the composite battery.
  startup_current :
      (coldplug : System D L → System D L × Bool) (s : System D L) (now : ℕ)
      → (coldplug s).1 ≡ true
      → let plugged = (coldplug s).0 in
        let (t, ret) = startup true coldplug s now in
        (ret ≡ true)
        × (t.daemon.on_battery ≡ (get_on_battery_local plugged && not (get_on_ac_local plugged)))
        × (t.daemon.warning_level ≡ warning_level_of t)
  unfolding startup get_warning_level_local set_on_battery
  startup_current coldplug s now ok =
      let plugged = (coldplug s).0 in
      let on = get_on_battery_local plugged && not (get_on_ac_local plugged) in
      let shown = (update_display_battery plugged now).0 in
      let (level, battery, same) =
        set_warning_level_level (set_on_battery shown on) (warning_level_of shown) now in
      rw ok (refl, battery, level ∙ sym (same ∙ warning_level_of-set_on_battery shown on))

module _ {L : Type 0} ⦃m : MainLoop L⦄ (laws : IsMainLoop L) where
  open laws use {source-zero, source-remove}

  drop_source-source :
      (id i : ℕ) (loop : L) (c : Callback)
      → m.source i (drop_source id loop) ≡ some c
      → (m.source i loop ≡ some c) × (i ≢ id)
  drop_source-source id i loop c e = elim (Bool-cases (id == 0)) [
    | inl zero ↦ (ground (arith, e, zero), λ h. ground (arith, e, zero, h, source-zero loop))
    | inr live ↦ (
      ground (arith, e, live, source-remove id loop i),
      λ h. ground (arith, e, live, h, source-remove id loop i),
    )
  ]

  -- A daemon that is freed leaves no source that would run the critical action, if the one that
  -- it remembers was the only one.
  finalize-actions :
      {D : Type 0} (s : System D L) (i : ℕ)
      → IsSingle s
      → m.source i (finalize s) ≢ some take_action_timeout_cb
  unfolding finalize
  finalize-actions s i single e =
      let d = s.daemon in
      let quiet = drop_source d.action_timeout_id s.loop in
      let (still, _) = drop_source-source d.refresh_event_id i quiet take_action_timeout_cb e in
      let (armed, other) =
        drop_source-source d.action_timeout_id i s.loop take_action_timeout_cb still in
      other (single i armed)
