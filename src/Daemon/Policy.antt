-- ===== src/Daemon/Policy.antt =====
-- src/up-daemon.c: the warning-level configuration and `up_daemon_compute_warning_level`.
use upower.Prelude.{
  ℕ, ◌≤◌, ◌<◌, ◌≡◌, Bool, true, false, not, ◌&&◌, ◌||◌, String, arith, ltb, leb, if◌then◌else◌,
}
use upower.Prelude.Int.{ℤ, pos, ltb_ℤ, ◌≤ℤ◌}
use upower.Floating.{Floating, ◌≼◌, IsOrdered}
use upower.Types.{DeviceKind, DeviceState, DeviceLevel, kind_eq, state_eq, level_to_int}

-- The "WarningLevel configuration" fields of `UpDaemonPrivate`.
pub record Policy : Type 0 where
  pub use_percentage_for_policy : Bool
  pub low_percentage : ℕ
  pub critical_percentage : ℕ
  pub action_percentage : ℕ
  pub low_time : ℕ
  pub critical_time : ℕ
  pub action_time : ℕ

-- up-config.h: how the daemon reads its configuration file.
pub record Config : Type 0 where
  pub get_boolean : String → Bool
  pub get_uint : String → ℕ

-- `LOAD_OR_DEFAULT`
abbrev load_or_default : Config → Bool → String → ℕ → ℕ
load_or_default config load_default key def = if load_default then def else config.get_uint key

unfoldable pub load_percentage_policy : Config → Policy → Bool → Policy
load_percentage_policy config p load_default = record p {
  low_percentage = load_or_default config load_default "PercentageLow" 10;
  critical_percentage = load_or_default config load_default "PercentageCritical" 3;
  action_percentage = load_or_default config load_default "PercentageAction" 2;
}

unfoldable pub load_time_policy : Config → Policy → Bool → Policy
load_time_policy config p load_default = record p {
  low_time = load_or_default config load_default "TimeLow" 1200;
  critical_time = load_or_default config load_default "TimeCritical" 300;
  action_time = load_or_default config load_default "TimeAction" 120;
}

-- `IS_DESCENDING`
abbrev is_descending : ℕ → ℕ → ℕ → Bool
is_descending x y z = ltb y x && ltb z y

validate_percentage : Config → Policy → Policy
unfolding load_percentage_policy
validate_percentage config p =
    if leb 100 p.low_percentage || leb 100 p.critical_percentage || leb 100 p.action_percentage
    then load_percentage_policy config p true
    else if not (is_descending p.low_percentage p.critical_percentage p.action_percentage)
    then load_percentage_policy config p true
    else p

validate_time : Config → Policy → Policy
unfolding load_time_policy
validate_time config p =
    if not (is_descending p.low_time p.critical_time p.action_time)
    then load_time_policy config p true
    else p

unfoldable pub policy_config_validate : Config → Policy → Policy
unfolding validate_percentage validate_time
policy_config_validate config p = validate_time config (validate_percentage config p)

-- The part of `up_daemon_init` that reads the configuration, over the zeroed structure.
unfoldable pub load_policy : Config → Policy
unfolding load_percentage_policy load_time_policy policy_config_validate
load_policy config =
    let zeroed : Policy = record {
      use_percentage_for_policy = config.get_boolean "UsePercentageForPolicy";
      low_percentage = 0;
      critical_percentage = 0;
      action_percentage = 0;
      low_time = 0;
      critical_time = 0;
      action_time = 0;
    } in
    policy_config_validate config
      (load_time_policy config (load_percentage_policy config zeroed false) false)

pub record IsValid (p : Policy) : Type 0 where
  pub low_below_full : p.low_percentage < 100
  pub critical_below_low : p.critical_percentage < p.low_percentage
  pub action_below_critical : p.action_percentage < p.critical_percentage
  pub critical_sooner : p.critical_time < p.low_time
  pub action_sooner : p.action_time < p.critical_time

-- Whatever the configuration file holds, the daemon starts with percentages below 100 and with
-- percentages and times that fall from the low to the critical to the action threshold.
pub load_policy-IsValid : (config : Config) → IsValid (load_policy config)
unfolding load_policy
load_policy-IsValid config = ground arith

-- Validation leaves the thresholds of a valid policy as they are.
policy_config_validate_keeps :
    (config : Config) (p : Policy) → IsValid p → policy_config_validate config p ≡ p
unfolding policy_config_validate
policy_config_validate_keeps config p v = ground arith

unfoldable pub by_time : Policy → DeviceLevel → ℤ → DeviceLevel
by_time p default_level time_to_empty =
    if ltb_ℤ (pos p.low_time) time_to_empty
    then default_level
    else if ltb_ℤ (pos p.critical_time) time_to_empty
    then DeviceLevel.low
    else if ltb_ℤ (pos p.action_time) time_to_empty
    then DeviceLevel.critical
    else DeviceLevel.action

by_time_mono :
    (p : Policy) (default_level : DeviceLevel) (t u : ℤ)
    → level_to_int default_level ≤ 2
    → t ≤ℤ u
    → level_to_int (by_time p default_level u) ≤ level_to_int (by_time p default_level t)
unfolding by_time
by_time_mono p default_level t u small h = ground arith

module _ {D : Type 0} ⦃f : Floating D⦄ where
  open f use {lit, litf, of_nat, lt, le}

  unfoldable pub by_percentage : Policy → DeviceLevel → D → DeviceLevel
  by_percentage p default_level percentage =
      if lt (of_nat p.low_percentage) percentage
      then default_level
      else if lt (of_nat p.critical_percentage) percentage
      then DeviceLevel.low
      else if lt (of_nat p.action_percentage) percentage
      then DeviceLevel.critical
      else DeviceLevel.action

  unfoldable pub by_coarse : D → DeviceLevel
  by_coarse percentage =
      if le percentage (litf 5 1)
      then DeviceLevel.critical
      else if le percentage (litf 10 1)
      then DeviceLevel.low
      else DeviceLevel.none

  unfoldable pub compute_warning_level :
      Policy → DeviceState → DeviceKind → Bool → D → ℤ → DeviceLevel
  compute_warning_level p state kind power_supply percentage time_to_empty =
      if not (state_eq state DeviceState.discharging)
      then DeviceLevel.none
      else if kind_eq kind DeviceKind.mouse || kind_eq kind DeviceKind.keyboard
      then by_coarse percentage
      else let default_level =
          if kind_eq kind DeviceKind.ups then DeviceLevel.discharging else DeviceLevel.none in
        if power_supply && not p.use_percentage_for_policy && ltb_ℤ (pos 0) time_to_empty
        then by_time p default_level time_to_empty
        else by_percentage p default_level percentage

  module _ (laws : IsOrdered D) where
    open laws use {le_trans, lt-le_trans}

    by_percentage_mono :
        (p : Policy) (default_level : DeviceLevel) (x y : D)
        → level_to_int default_level ≤ 2
        → x ≼ y
        → level_to_int (by_percentage p default_level y)
          ≤ level_to_int (by_percentage p default_level x)
    unfolding by_percentage
    by_percentage_mono p default_level x y small h = ground (
      arith,
      lt-le_trans (of_nat p.low_percentage) x y,
      lt-le_trans (of_nat p.critical_percentage) x y,
      lt-le_trans (of_nat p.action_percentage) x y,
    )

    by_coarse_mono : (x y : D) → x ≼ y → level_to_int (by_coarse y) ≤ level_to_int (by_coarse x)
    unfolding by_coarse
    by_coarse_mono x y h = ground (arith, le_trans x y (litf 5 1), le_trans x y (litf 10 1))

    -- A battery with more charge and more time left never has the more severe warning level, when
    -- the state, the kind and the configuration are the same and the time is known.
    pub compute_warning_level_mono :
        (p : Policy) (state : DeviceState) (kind : DeviceKind) (power_supply : Bool)
        → (x y : D) (t u : ℤ) → x ≼ y
        → t ≤ℤ u
        → ltb_ℤ (pos 0) t ≡ true
        → level_to_int (compute_warning_level p state kind power_supply y u)
          ≤ level_to_int (compute_warning_level p state kind power_supply x t)
    unfolding compute_warning_level
    compute_warning_level_mono p DeviceState.discharging DeviceKind.mouse _ x y t u h k known =
        by_coarse_mono x y h
    compute_warning_level_mono p DeviceState.discharging DeviceKind.keyboard _ x y t u h k known =
        by_coarse_mono x y h
    compute_warning_level_mono p DeviceState.discharging DeviceKind.ups s x y t u h k known =
        ground (
          arith,
          by_time_mono p DeviceLevel.discharging t u (omega arith) k,
          by_percentage_mono p DeviceLevel.discharging x y (omega arith) h,
        )
    compute_warning_level_mono p DeviceState.discharging _ s x y t u h k known = ground (
      arith,
      by_time_mono p DeviceLevel.none t u (omega arith) k,
      by_percentage_mono p DeviceLevel.none x y (omega arith) h,
    )
    compute_warning_level_mono p _ _ _ x y t u h k known = omega arith
