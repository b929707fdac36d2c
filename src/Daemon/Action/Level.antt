-- ===== src/Daemon/Action/Level.antt =====
-- src/up-daemon.c: the properties of the daemon after a change of a device.
use upower.Prelude.{ℕ, ◌≡◌, refl, true, not, ◌&&◌, ltb, ◌==◌, Bool-cases, inl, inr, ◌∙◌, sym, arith}
use upower.Floating.{Floating}
use upower.MainLoop.{MainLoop}
use upower.Types.{DeviceLevel, level_eq}
use upower.Daemon.{System}
use upower.Daemon.Display.Update.{
  get_on_battery_local, get_on_ac_local, current_totals, unchanged, store_totals,
  update_display_battery,
}
use upower.Daemon.Action.{
  warning_level_of, get_warning_level_local, set_on_battery, set_warning_level,
  update_warning_level,
}

level_eq→eq : (a b : DeviceLevel) → level_eq a b ≡ true → a ≡ b
level_eq→eq a b h = ground arith

module _ {D L : Type 0} ⦃f : Floating D⦄ ⦃m : MainLoop L⦄ where
  pub set_warning_level_level :
      (s : System D L) (level : DeviceLevel) (now : ℕ)
      → let t = set_warning_level s level now in
        (t.daemon.warning_level ≡ level)
        × (t.daemon.on_battery ≡ s.daemon.on_battery)
        × (warning_level_of t ≡ warning_level_of s)
  unfolding set_warning_level warning_level_of get_on_ac_local
  set_warning_level_level s level now = elim (Bool-cases (level_eq s.daemon.warning_level level)) [
    | inl same ↦ rw same (level_eq→eq _ _ same, refl, refl)
    | inr new ↦ elim (Bool-cases (level_eq level DeviceLevel.action)) [
      | inl action ↦ elim (Bool-cases (s.daemon.action_timeout_id == 0)) [
        | inl idle ↦ rw (new, action, idle) (refl, refl, refl)
        | inr armed ↦ rw (new, action, armed) (refl, refl, refl)
      ]
      | inr calm ↦ elim (Bool-cases (ltb 0 s.daemon.action_timeout_id)) [
        | inl armed ↦ rw (new, calm, armed) (refl, refl, refl)
        | inr idle ↦ rw (new, calm, idle) (refl, refl, refl)
      ]
    ]
  ]

  pub display_keeps :
      (s : System D L) (now : ℕ)
      → (update_display_battery s now).0.daemon.on_battery ≡ s.daemon.on_battery
  unfolding update_display_battery store_totals
  display_keeps s now = elim (Bool-cases (unchanged s.daemon (current_totals s))) [
    | inl same ↦ rw same refl
    | inr new ↦ rw new refl
  ]

  -- After an update, the daemon is on battery exactly if a device is and no power line is online, and
  -- its warning level is the one that its own fields give.
  update_warning_level_current :
      (s : System D L) (now : ℕ)
      → let t = update_warning_level s now in
        (t.daemon.on_battery ≡ (get_on_battery_local s && not (get_on_ac_local s)))
        × (t.daemon.warning_level ≡ warning_level_of t)
  unfolding update_warning_level get_warning_level_local set_on_battery
  update_warning_level_current s now =
      let on = get_on_battery_local s && not (get_on_ac_local s) in
      let t = (update_display_battery (set_on_battery s on) now).0 in
      let (level, battery, same) = set_warning_level_level t (warning_level_of t) now in
      let kept = display_keeps (set_on_battery s on) now in
      elim (Bool-cases (level_eq (warning_level_of t) t.daemon.warning_level)) [
        | inl equal ↦ rw equal (kept, sym (level_eq→eq _ _ equal))
        | inr changed ↦ rw changed (battery ∙ kept, level ∙ sym same)
      ]
