-- ===== src/Daemon/Action/Timer.antt =====
-- The timer of the action, as the calls of src/up-daemon.c start and stop it.
use upower.Prelude.{
  Bool-cases, if_both, if_known, true, if◌then◌else◌, inl, inr, ◌∙◌, ◌==◌, ==→eq, ltb, ℕ, suc, ◌≡◌,
  refl, ◌≢◌, some, arith,
}
use upower.MainLoop.{MainLoop, IsMainLoop, take_action_timeout_cb}
use upower.Types.{DeviceLevel, level_eq}
use upower.Daemon.{System}
use upower.Daemon.Action.{
  action_delay, set_warning_level, show_level, start_or_stop, take_action_timeout,
}

level_eq_ne : (a b : DeviceLevel) → a ≢ b → level_eq a b ≡ true → ⊥
level_eq_ne a b ne same = ground (arith, ne, same)

module _ {D L : Type 0} ⦃m : MainLoop L⦄ where
  open m use {source}

  -- Whether the loop will call `take_action_timeout_cb` for the source.
  abbrev pub IsArmed : System D L → ℕ → Type 0
  IsArmed s i = source i s.loop ≡ some take_action_timeout_cb

  -- The only source that can lead to the action is the one that the daemon remembers.
  abbrev pub IsSingle : System D L → Type 0
  IsSingle s = (i : ℕ) → IsArmed s i → i ≡ s.daemon.action_timeout_id

  module _ (laws : IsMainLoop L) where
    open laws use {source-zero, add-fresh, add-positive, source-add, source-remove}

    started-IsSingle :
        (s : System D L)
        → IsSingle s
        → s.daemon.action_timeout_id ≡ 0
        → let (id, started) = m.add action_delay take_action_timeout_cb s.loop in
          IsSingle
            (record s { daemon = record s.daemon { action_timeout_id = id }; loop = started })
    started-IsSingle s single idle i armed =
        let (id, started) = m.add action_delay take_action_timeout_cb s.loop in
        let added = source-add action_delay take_action_timeout_cb s.loop i in
        elim (Bool-cases (i == id)) [
          | inl new ↦ ==→eq i id new
          | inr old ↦
              let before : IsArmed s i = ground (arith, armed, added, old) in
              let zero = single i before ∙ idle in
              absurd (ground (arith, before, zero, source-zero s.loop))
        ]

    removed-IsSingle :
        (s : System D L)
        → IsSingle s
        → IsSingle (record s { loop = m.remove s.daemon.action_timeout_id s.loop })
    removed-IsSingle s single i armed =
        let removed = source-remove s.daemon.action_timeout_id s.loop i in
        elim (Bool-cases (i == s.daemon.action_timeout_id)) [
          | inl this ↦ ==→eq i s.daemon.action_timeout_id this
          | inr other ↦ single i (ground (arith, armed, removed, other))
        ]

    start_or_stop-IsSingle : (s : System D L) → IsSingle s → IsSingle (start_or_stop s)
    unfolding start_or_stop
    start_or_stop-IsSingle s single =
        let stopped =
          if_both IsSingle (ltb 0 s.daemon.action_timeout_id) (removed-IsSingle s single) single in
        if_both IsSingle (level_eq s.daemon.warning_level DeviceLevel.action)
          (elim (Bool-cases (s.daemon.action_timeout_id == 0)) [
            | inl idle ↦
                rw idle (started-IsSingle s single (==→eq s.daemon.action_timeout_id 0 idle))
            | inr live ↦ rw live single
          ])
          stopped

    -- Setting a warning level never leaves two timers that lead to the action: the one that is
    -- armed, if any, is the one that the daemon remembers.
    pub set_warning_level-IsSingle :
        (s : System D L) (level : DeviceLevel) (now : ℕ)
        → IsSingle s
        → IsSingle (set_warning_level s level now)
    unfolding set_warning_level show_level
    set_warning_level-IsSingle s level now single =
        if_both IsSingle (level_eq s.daemon.warning_level level) single
          (start_or_stop-IsSingle (record s { daemon = show_level s.daemon level now }) single)

    stopped-silent :
        (s : System D L) (i : ℕ)
        → IsSingle s
        → ¬ IsArmed
            (if ltb 0 s.daemon.action_timeout_id
              then record s { loop = m.remove s.daemon.action_timeout_id s.loop }
              else s)
            i
    stopped-silent s i single =
        let id = s.daemon.action_timeout_id in
        if_known (λ (t : System D L). ¬ IsArmed t i) (ltb 0 id)
          (λ live armed. ground (arith, single i, source-remove id s.loop i, armed))
          λ idle armed. ground (arith, idle, single i armed, source-zero s.loop, armed)

    start_or_stop-silent :
        (s : System D L) (i : ℕ)
        → IsSingle s
        → s.daemon.warning_level ≢ DeviceLevel.action
        → ¬ IsArmed (start_or_stop s) i
    unfolding start_or_stop
    start_or_stop-silent s i single below =
        if_known (λ (t : System D L). ¬ IsArmed t i)
          (level_eq s.daemon.warning_level DeviceLevel.action)
          (λ same. absurd (level_eq_ne s.daemon.warning_level DeviceLevel.action below same))
          λ other. stopped-silent s i single

    -- A change to a level other than action leaves no timer that leads to the action.
    pub set_warning_level_disarms :
        (s : System D L) (level : DeviceLevel) (now : ℕ) (i : ℕ)
        → IsSingle s
        → level ≢ DeviceLevel.action
        → s.daemon.warning_level ≢ level
        → ¬ IsArmed (set_warning_level s level now) i
    unfolding set_warning_level show_level
    set_warning_level_disarms s level now i single below changed =
        let shown = record s { daemon = show_level s.daemon level now } in
        if_known (λ (t : System D L). ¬ IsArmed t i) (level_eq s.daemon.warning_level level)
          (λ same. absurd (level_eq_ne s.daemon.warning_level level changed same))
          λ other. start_or_stop-silent shown i single below

    -- When the timer runs out, the backend is told once, and afterwards no timer is armed and the
    -- daemon remembers none.
    take_action_timeout_once :
        (s : System D L) (i j : ℕ)
        → IsSingle s
        → IsArmed s i
        → let s' = take_action_timeout s i in
          (s'.actions ≡ suc s.actions) × (s'.daemon.action_timeout_id ≡ 0) × ¬ IsArmed s' j
    unfolding take_action_timeout
    take_action_timeout_once s i j single armed =
        (refl, refl, λ again. ground (arith, single i, single j, source-remove i s.loop j))
