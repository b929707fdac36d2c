-- ===== src/Supply/Battery/Energy.antt =====
-- src/linux/up-device-supply.c: the energy of a battery, its rate and its percentage.
use upower.Prelude.{not, ◌&&◌, ◌||◌, if◌then◌else◌}
use upower.Prelude.Text.{Text}
use upower.Floating.{Floating, fabs, fmax, fmin, clamp}
use upower.Storage.{Files}
use upower.Types.{DeviceState, state_eq}
use upower.Supply.{Private}
use upower.Supply.Sysfs.{AsciiDouble, get_double, file_exists}
use upower.Supply.Attributes.{get_micro}

module _ {D : Type 0} ⦃f : Floating D⦄ where
  -- The value that ACPI reports for "unknown", and rates over 100 W, become 0.
  unfoldable pub sane_rate : D → D
  sane_rate rate =
      let known = if f.eq rate (f.lit 65535 1) then f.lit 0 1 else rate in
      if f.lt (f.lit 100 1) known then f.lit 0 1 else known

  -- The percentage of a battery that is not calibrated, by its voltage. The two values before are
  -- those that the device shows.
  unfoldable pub estimate : Private D → DeviceState → D → D → D → D
  estimate p state percentage_prev voltage_prev voltage =
      let charging = state_eq state DeviceState.charging in
      let delta = f.sub p.voltage_max_design p.voltage_min_design in
      let average = f.div (f.add voltage_prev voltage) (f.lit 2 1) in
      let empty =
        if charging
        then f.add p.voltage_min_design (f.mul delta (f.lit 2 10))
        else p.voltage_min_design in
      let full =
        if charging
        then p.voltage_max_design
        else f.sub p.voltage_max_design (f.mul delta (f.lit 2 10)) in
      let now = f.mul (f.div (f.sub average empty) (f.sub full empty)) (f.lit 100 1) in
      let bounded = if charging then fmax percentage_prev now else fmin percentage_prev now in
      f.round (
        if not (f.eq percentage_prev (f.lit 0 1))
        then f.div (f.add percentage_prev bounded) (f.lit 2 1)
        else now)

module _ {D S : Type 0} ⦃f : Floating D⦄ ⦃n : AsciiDouble D⦄ ⦃fs : Files S⦄ where
  unfoldable pub get_energy : S → Text → D
  get_energy disk path =
      let now = get_micro disk path "energy_now" in
      if f.lt now (f.lit 1 100) then get_micro disk path "energy_avg" else now

  -- A battery that counts charge.
  abbrev energy_of_charge : S → Text → D → D → D
  energy_of_charge disk path charge voltage_design =
      f.mul (if f.lt charge (f.lit 1 100) then get_micro disk path "charge_avg" else charge)
        voltage_design

  -- The energy and the rate. Without a power the rate is that of the current, which is a power in
  -- itself if the battery counts energy only.
  unfoldable pub get_rate : S → Text → D → D → D → D → D → D × D
  get_rate disk path energy charge charge_full charge_full_design voltage_design =
      let power = fabs (get_micro disk path "power_now") in
      let current = fabs (get_micro disk path "current_now") in
      if f.lt power (f.lit 1 100)
      then (
        if f.lt energy (f.lit 1 100)
            then energy_of_charge disk path charge voltage_design
            else energy,
        if not (f.eq charge_full (f.lit 0 1)) || not (f.eq charge_full_design (f.lit 0 1))
            then f.mul current voltage_design
            else current,
      )
      else (energy, power)

  -- The reported percentage, or the estimate.
  abbrev calibrated : S → Text → Private D → DeviceState → D → D → D → D → D → D
  calibrated disk path p state charge charge_full percentage_prev voltage_prev voltage =
      let reported = get_double disk path "capacity" in
      if (f.eq charge_full (f.lit 0 1) || f.eq charge (f.lit 0 1))
        && f.eq reported (f.lit 0 1)
        && not (f.eq p.voltage_min_design (f.lit 0 1))
        && not (f.eq p.voltage_max_design (f.lit 0 1))
      then (if state_eq state DeviceState.empty
          then f.lit 0 1
          else if state_eq state DeviceState.fully_charged
          then f.lit 100 1
          else estimate p state percentage_prev voltage_prev voltage)
      else reported

  -- `precise` is the percentage where the device has a capacity. The second result is the energy,
  -- which may be worked out from it.
  unfoldable pub precise_percentage : S → Text → D → D → D → D × D
  precise_percentage disk path precise energy energy_full =
      let clamped = clamp precise (f.litf 0 1) (f.litf 100 1) in
      let ratio = f.div (f.mul (f.lit 100 1) energy) energy_full in
      if file_exists disk path "capacity" || file_exists disk path "capacity_level"
      then (
        clamped,
        if f.lt energy (f.litf 1 10) && f.lt (f.litf 0 1) energy_full
            then f.div (f.mul energy_full clamped) (f.lit 100 1)
            else energy,
      )
      else if f.lt (f.litf 0 1) energy_full
      then (clamp ratio (f.litf 0 1) (f.litf 100 1), energy)
      else (f.litf 0 1, energy)

  unfoldable pub get_percentage :
      S → Text → Private D → DeviceState → D → D → D → D → D → D → D → D × D
  get_percentage disk path p state charge charge_full percentage_prev voltage_prev voltage energy
        energy_full =
      precise_percentage disk path
        (calibrated disk path p state charge charge_full percentage_prev voltage_prev voltage)
        energy energy_full
