-- ===== src/Supply/Battery/Guess.antt =====
-- src/linux/up-device-supply.c: the state of a battery, guessed where it is not reported, and the
-- times that are left.
use upower.Prelude.{
  ℕ, Bool, true, false, ◌&&◌, List, [], ◌∷◌, Option, none, some, ◌==◌, if◌then◌else◌,
}
use upower.Prelude.Int.{ℤ, pos, ltb_ℤ}
use upower.Prelude.Text.{Text}
use upower.Floating.{Floating}
use upower.Storage.{Files}
use upower.Types.{DeviceKind, DeviceState, state_eq}
use upower.Device.{UpDevice, get_online}
use upower.Daemon.Display.Update.{count_kind}
use upower.Supply.Sysfs.{get_int, file_exists}

abbrev pub first_some : Option Bool → Option Bool → Option Bool
first_some none later = later
first_some (some b) later = some b

module _ {D : Type 0} where
  -- The loop over the devices, which ends at the first power line: `none` is no AC, and `some` is
  -- whether it is online.
  unfoldable pub find_ac : List (UpDevice D) → Option Bool
  find_ac [] = none
  find_ac (d ∷ ds) = first_some (get_online d) (find_ac ds)

module _ {D : Type 0} ⦃f : Floating D⦄ where
  abbrev low_state : D → DeviceState
  low_state percentage =
      if f.lt percentage (f.litf 1 1) then DeviceState.empty else DeviceState.discharging

  abbrev pub state_by_ac : D → ℕ → Option Bool → DeviceState
  state_by_ac percentage batteries (some true) =
      if f.lt (f.litf 90 1) percentage then DeviceState.fully_charged else DeviceState.charging
  state_by_ac percentage batteries (some false) = low_state percentage
  state_by_ac percentage batteries none =
      if batteries == 1 then low_state percentage else DeviceState.unknown

  -- A guess for a battery that supplies the system; batteries whose number is not one stay unknown
  -- without an AC.
  unfoldable pub guess_state : List (UpDevice D) → D → DeviceState
  guess_state ds percentage = state_by_ac percentage (count_kind DeviceKind.battery ds) (find_ac ds)

  -- The state that is reported, the three corrections applied in turn.
  unfoldable pub correct_state : List (UpDevice D) → Bool → DeviceState → D → D → DeviceState
  correct_state ds is_power_supply reported percentage energy =
      let full =
        if state_eq reported DeviceState.pending_charge && f.eq percentage (f.lit 100 1)
        then DeviceState.fully_charged
        else reported in
      let guessed =
        if state_eq full DeviceState.unknown && is_power_supply
        then guess_state ds percentage
        else full in
      if state_eq guessed DeviceState.unknown && f.lt energy (f.lit 1 100)
      then DeviceState.empty
      else guessed

-- Ten days for discharging and 20 hours for charging, in seconds.
abbrev pub max_time_to_empty : ℕ
max_time_to_empty = 864000

abbrev pub max_time_to_full : ℕ
max_time_to_full = 72000

-- A time over its limit is not believed.
abbrev pub limited : ℕ → ℤ → ℤ
limited limit time = if ltb_ℤ (pos limit) time then pos 0 else time

module _ {D S : Type 0} ⦃f : Floating D⦄ ⦃fs : Files S⦄ where
  -- The time to empty and the time to full: that of the kernel, or the quotient.
  abbrev pub time_left : S → Text → DeviceState → D → D → D → ℤ × ℤ
  time_left disk path state energy energy_full energy_rate =
      if f.lt (f.lit 0 1) energy_rate
      then (if state_eq state DeviceState.discharging
          then (
            if file_exists disk path "time_to_empty_now"
                then get_int disk path "time_to_empty_now"
                else f.to_int (f.mul (f.lit 3600 1) (f.div energy energy_rate)),
            pos 0,
          )
          else if state_eq state DeviceState.charging
          then (
            pos 0,
            if file_exists disk path "time_to_full_now"
                then get_int disk path "time_to_full_now"
                else f.to_int (f.mul (f.lit 3600 1) (f.div (f.sub energy_full energy) energy_rate)),
          )
          else (pos 0, pos 0))
      else (pos 0, pos 0)

  unfoldable pub get_times : S → Text → DeviceState → D → D → D → ℤ × ℤ
  get_times disk path state energy energy_full energy_rate =
      let (empty, full) = time_left disk path state energy energy_full energy_rate in
      (limited max_time_to_empty empty, limited max_time_to_full full)
