-- ===== src/Daemon/Action/Stale.antt =====
-- A timer that was cancelled stays remembered: what src/up-daemon.c does afterwards.
use upower.Prelude.{ℕ, ◌≡◌, ◌≢◌, List, [], ◌∷◌, arith, ◌<◌}
use upower.MainLoop.{MainLoop, IsMainLoop}
use upower.Types.{DeviceLevel}
use upower.Daemon.{System}
use upower.Daemon.Action.{set_warning_level}
use upower.Daemon.Action.Timer.{IsArmed, IsSingle, set_warning_level_disarms}

module _ {D L : Type 0} ⦃m : MainLoop L⦄ where
  -- The daemon remembers a timer, and no timer is armed.
  pub record IsStale (s : System D L) : Type 0 where
    pub remembered : 0 < s.daemon.action_timeout_id
    pub disarmed : (i : ℕ) → ¬ IsArmed s i

  -- The warning levels that the daemon sets one after another, each with its time.
  abbrev pub set_levels : System D L → List (DeviceLevel × ℕ) → System D L
  set_levels s [] = s
  set_levels s ((level, now) ∷ rest) = set_levels (set_warning_level s level now) rest

  module _ (laws : IsMainLoop L) where
    open laws use {source-remove}

    set_warning_level-IsStale :
        (s : System D L) (level : DeviceLevel) (now : ℕ)
        → IsStale s
        → IsStale (set_warning_level s level now)
    unfolding set_warning_level
    set_warning_level-IsStale s level now v = record {
      remembered = ground arith;
      disarmed = λ i armed.
          ground (arith, v.disarmed i, source-remove s.daemon.action_timeout_id s.loop i);
    }

    set_levels-IsStale :
        (s : System D L) (levels : List (DeviceLevel × ℕ))
        → IsStale s
        → IsStale (set_levels s levels)
    set_levels-IsStale s [] v = v
    set_levels-IsStale s ((level, now) ∷ rest) v =
        set_levels-IsStale (set_warning_level s level now) rest
          (set_warning_level-IsStale s level now v)

    -- The timer that was cancelled is still remembered, so it is never started again: once the
    -- level has left action while the timer ran, no later sequence of levels arms a timer, not
    -- even one that comes back to action.
    pub set_levels_never_acts :
        (s : System D L) (level : DeviceLevel) (now : ℕ) (later : List (DeviceLevel × ℕ)) (i : ℕ)
        → IsSingle s
        → s.daemon.warning_level ≡ DeviceLevel.action
        → 0 < s.daemon.action_timeout_id
        → level ≢ DeviceLevel.action
        → ¬ IsArmed (set_levels (set_warning_level s level now) later) i
    unfolding set_warning_level
    set_levels_never_acts s level now later i single acting pending left =
        (set_levels-IsStale (set_warning_level s level now) later (record {
          remembered = ground arith;
          disarmed =
              λ j. set_warning_level_disarms laws s level now j single left (λ e. ground arith);
        })).disarmed
          i
