-- ===== src/Supply/Battery/Initial.antt =====
-- src/linux/up-device-supply.c: the values of a battery that are read once.
use upower.Prelude.{Bool, true, false, not, ◌&&◌, ◌||◌, if◌then◌else◌}
use upower.Prelude.Text.{Text}
use upower.Floating.{Floating}
use upower.Storage.{Files}
use upower.Types.{DeviceTechnology}
use upower.Device.{Skeleton}
use upower.Supply.{Private, AsciiText}
use upower.Supply.Sysfs.{AsciiDouble}
use upower.Supply.Texts.{get_string, make_safe_string, convert_device_technology}
use upower.Supply.Attributes.{get_micro, get_design_voltage, units_changed}

-- What the block leaves behind; the two numbers are locals of the function.
pub record InitialValues (D : Type 0) : Type 0 where
  pub priv : Private D
  pub skeleton : Skeleton D
  pub energy_full : D
  pub charge_full_design : D

abbrev is_lithium_ion : DeviceTechnology → Bool
is_lithium_ion DeviceTechnology.lithium_ion = true
is_lithium_ion _ = false

module _ {D : Type 0} ⦃f : Floating D⦄ where
  -- `capacity`, "how broken our battery is".
  unfoldable pub capacity_of : D → D → D
  capacity_of energy_full energy_full_design =
      let ratio = f.mul (f.div energy_full energy_full_design) (f.litf 100 1) in
      let positive = if f.lt ratio (f.lit 0 1) then f.lit 0 1 else ratio in
      if f.lt (f.lit 0 1) energy_full
      then (if f.lt (f.lit 100 1) positive then f.lit 100 1 else positive)
      else f.litf 100 1

module _ {D S : Type 0} ⦃f : Floating D⦄ ⦃n : AsciiDouble D⦄ ⦃fs : Files S⦄ where
  -- `present` voltage: the present one or the average.
  abbrev pub get_voltage : S → Text → D
  get_voltage disk path =
      let now = get_micro disk path "voltage_now" in
      if f.lt now (f.lit 1 100) then get_micro disk path "voltage_avg" else now

module _ {D : Type 0} where
  abbrev pub known_values : Private D → Skeleton D → InitialValues D
  known_values p s = record {
    priv = p;
    skeleton = s;
    energy_full = s.energy_full;
    charge_full_design = s.charge_full_design;
  }

module _ {D S : Type 0} ⦃f : Floating D⦄ ⦃n : AsciiDouble D⦄ ⦃a : AsciiText⦄ ⦃fs : Files S⦄ where
  -- The texts of a battery, which may be blank, and what is assumed of it.
  abbrev identified : S → Text → Private D → Skeleton D → Skeleton D
  identified disk path p s = record s {
    power_supply = p.is_power_supply;
    technology = convert_device_technology (get_string disk path "technology");
    vendor = make_safe_string (get_string disk path "manufacturer");
    model = make_safe_string (get_string disk path "model_name");
    serial = make_safe_string (get_string disk path "serial_number");
    is_rechargeable = true;
    has_history = true;
    has_statistics = true;
  }

  unfoldable pub initial_values : S → Text → D → Private D → Skeleton D → InitialValues D
  initial_values disk path charge_full p s =
      let (voltage_design, shown) = get_design_voltage disk path p.shown_invalid_voltage_warning in
      let technology = convert_device_technology (get_string disk path "technology") in
      let min_design = get_micro disk path "voltage_min_design" in
      let max_design = get_micro disk path "voltage_max_design" in
      let assumed =
        (f.eq min_design (f.lit 0 1) || f.eq max_design (f.lit 0 1))
        && is_lithium_ion technology
        && f.lt voltage_design (f.lit 425 100) in
      let reported_full = get_micro disk path "energy_full" in
      let charge_full_design = get_micro disk path "charge_full_design" in
      let by_charge = f.lt reported_full (f.lit 1 100) in
      let converted = if by_charge then f.mul charge_full voltage_design else reported_full in
      let energy_full_design =
        if by_charge
        then f.mul charge_full_design voltage_design
        else get_micro disk path "energy_full_design" in
      let energy_full =
        if f.lt converted (f.lit 1 100) && f.lt (f.lit 1 100) energy_full_design
        then energy_full_design
        else converted in
      record {
        priv = record p {
          shown_invalid_voltage_warning = shown;
          voltage_design = voltage_design;
          voltage_min_design =
              if assumed && f.eq min_design (f.lit 0 1) then f.lit 3 1 else min_design;
          voltage_max_design =
              if assumed && f.eq max_design (f.lit 0 1) then f.lit 42 10 else max_design;
          coldplug_units = if by_charge then true else p.coldplug_units;
          has_coldplug_values = true;
        };
        skeleton = record (identified disk path p s) {
          capacity = capacity_of energy_full energy_full_design;
          charge_full_design = charge_full_design;
          energy_full_design = energy_full_design;
          voltage = get_voltage disk path;
        };
        energy_full = energy_full;
        charge_full_design = charge_full_design;
      }

  unfoldable pub initial : S → Text → D → Private D → Skeleton D → InitialValues D
  initial disk path charge_full p s =
      if p.has_coldplug_values && not (units_changed p.coldplug_units disk path)
      then known_values p s
      else initial_values disk path charge_full p s
