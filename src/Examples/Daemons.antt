-- ===== src/Examples/Daemons.antt =====
-- The warning level and the action of src/up-daemon.c on concrete systems.
use upower.Prelude.{refl, ◌≤◌, true, [], ◌∷◌, arith}
use upower.Prelude.Int.{pos}
use upower.Floating.{milli_floating, milli-IsOrdered}
use upower.MainLoop.{sources_loop, sources-IsMainLoop}
use upower.Types.{DeviceKind, DeviceState, DeviceLevel, level_to_int}
use upower.Daemon.Policy.{
  Config, IsValid, load_policy, compute_warning_level, load_policy-IsValid,
  compute_warning_level_mono,
}
use upower.Daemon.Action.{set_warning_level}
use upower.Daemon.Action.Timer.{
  IsArmed, IsSingle, set_warning_level-IsSingle, set_warning_level_disarms,
}
use upower.Daemon.Action.Stale.{set_levels, set_levels_never_acts}
use upower.Examples.World.{number, policy, system}

abbrev config : Config
config = record { get_boolean = λ key. true; get_uint = λ key. 50 }

load_policy-IsValid_example : IsValid (load_policy config)
load_policy-IsValid_example = load_policy-IsValid config

compute_warning_level_mono_example :
    level_to_int (
      compute_warning_level policy DeviceState.discharging DeviceKind.battery true
        (number 5)
        (pos 900))
    ≤ level_to_int (
        compute_warning_level policy DeviceState.discharging DeviceKind.battery true
          (number 1)
          (pos 60))
compute_warning_level_mono_example =
    compute_warning_level_mono milli-IsOrdered policy DeviceState.discharging DeviceKind.battery
      true (number 1) (number 5) (pos 60) (pos 900) refl (omega arith) refl

system-IsSingle : IsSingle system
system-IsSingle i armed = ground arith

set_warning_level-IsSingle_example : IsSingle (set_warning_level system DeviceLevel.action 7)
set_warning_level-IsSingle_example =
    set_warning_level-IsSingle sources-IsMainLoop system DeviceLevel.action 7 system-IsSingle

set_warning_level_disarms_example :
    ¬ IsArmed
      (set_warning_level (set_warning_level system DeviceLevel.action 7) DeviceLevel.low 9)
      2
unfolding set_warning_level
set_warning_level_disarms_example =
    set_warning_level_disarms sources-IsMainLoop (set_warning_level system DeviceLevel.action 7)
      DeviceLevel.low 9 2 set_warning_level-IsSingle_example (λ e. cc) (λ e. cc)

-- Action, then low, then action again: nothing is armed.
set_levels_never_acts_example :
    ¬ IsArmed
      (set_levels
        (set_warning_level (set_warning_level system DeviceLevel.action 7) DeviceLevel.low 9)
        ((DeviceLevel.action, 11) ∷ []))
      2
unfolding set_warning_level
set_levels_never_acts_example =
    set_levels_never_acts sources-IsMainLoop (set_warning_level system DeviceLevel.action 7)
      DeviceLevel.low 9 ((DeviceLevel.action, 11) ∷ []) 2 set_warning_level-IsSingle_example refl
      (omega arith) (λ e. cc)
