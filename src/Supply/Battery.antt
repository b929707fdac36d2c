-- ===== src/Supply/Battery.antt =====
-- src/linux/up-device-supply.c: the refresh of a battery.
pub mod Initial
pub mod Energy
pub mod Guess
pub mod Kept
pub mod Bounds
pub mod OldRate
pub mod Adapter
use upower.Prelude.{ℕ, Bool, true, false, not, replicate, none, if◌then◌else◌}
use upower.Prelude.Int.{ℤ, pos}
use upower.Prelude.Text.{Text}
use upower.Floating.{Floating}
use upower.Storage.{Files}
use upower.MainLoop.{MainLoop}
use upower.Types.{DeviceState, DeviceTechnology, state_eq}
use upower.Device.{Skeleton}
use upower.Supply.{Private, Supply, Surroundings, AsciiText, energy_old_length}
use upower.Supply.Sysfs.{AsciiDouble, get_double, get_bool, file_exists}
use upower.Supply.Rate.{push_new_energy, calculate_rate}
use upower.Supply.Texts.{get_state}
use upower.Supply.Attributes.{get_micro}
use upower.Supply.Poll.{setup_unknown_poll}
use upower.Supply.Battery.Initial.{InitialValues, initial, get_voltage}
use upower.Supply.Battery.Energy.{get_energy, get_rate, sane_rate, get_percentage}
use upower.Supply.Battery.Guess.{correct_state, get_times}

module _ {D : Type 0} ⦃f : Floating D⦄ where
  -- The loop that clears the energies. Of a time stamp only the seconds are cleared.
  abbrev pub clear_energies : Private D → Private D
  clear_energies p = record p {
    energy_old = replicate energy_old_length (f.litf 0 1);
    energy_old_timespec = replicate energy_old_length (pos 0);
    energy_old_first = 0;
  }

  abbrev reset_skeleton : Skeleton D → Skeleton D
  reset_skeleton s = record s {
    vendor = none;
    model = none;
    serial = none;
    update_time = 0;
    power_supply = false;
    online = false;
    energy = f.lit 0 1;
    is_present = false;
    is_rechargeable = false;
    has_history = false;
    has_statistics = false;
    state = DeviceState.unknown;
    capacity = f.lit 0 1;
    charge = f.lit 0 1;
    charge_full = f.lit 0 1;
    charge_full_design = f.lit 0 1;
    energy_empty = f.lit 0 1;
    energy_full = f.lit 0 1;
    energy_full_design = f.lit 0 1;
    energy_rate = f.lit 0 1;
    voltage = f.lit 0 1;
    time_to_empty = pos 0;
    time_to_full = pos 0;
    percentage = f.lit 0 1;
    temperature = f.lit 0 1;
    technology = DeviceTechnology.unknown;
  }

  unfoldable pub reset_values : {L G : Type 0} → Supply D L G → Supply D L G
  reset_values s = record s {
    priv = record (clear_energies s.priv) {
      has_coldplug_values = false;
      coldplug_units = false;
      voltage_min_design = f.lit 0 1;
      voltage_max_design = f.lit 0 1;
      voltage_design = f.lit 0 1;
      rate_old = f.lit 0 1;
    };
    skeleton = reset_skeleton s.skeleton;
  }

-- The locals of the function that it exports in the end.
pub record Reading (D : Type 0) : Type 0 where
  pub charge : D
  pub charge_full : D
  pub energy : D
  pub energy_full : D
  pub energy_rate : D
  pub percentage : D
  pub state : DeviceState
  pub voltage : D
  pub time_to_empty : ℤ
  pub time_to_full : ℤ
  pub temperature : D

module _ {D : Type 0} ⦃f : Floating D⦄ where
  -- The rate that the hardware reports, or a calculated one, which also stores the energy.
  unfoldable pub choose_rate : Private D → D → D → ℤ → Private D × D
  choose_rate p reported energy time =
      let rate = sane_rate reported in
      if f.lt rate (f.lit 1 100) then calculate_rate p energy time else (p, rate)

module _ {D : Type 0} where
  unfoldable pub store : Reading D → Skeleton D → Skeleton D
  store r s = record s {
    charge = r.charge;
    charge_full = r.charge_full;
    energy = r.energy;
    energy_full = r.energy_full;
    energy_rate = r.energy_rate;
    percentage = r.percentage;
    state = r.state;
    voltage = r.voltage;
    time_to_empty = r.time_to_empty;
    time_to_full = r.time_to_full;
    temperature = r.temperature;
  }

module _ {D S : Type 0} ⦃f : Floating D⦄ ⦃n : AsciiDouble D⦄ ⦃a : AsciiText⦄ ⦃fs : Files S⦄ where
  -- From the locals of the first half of the function to what it exports.
  unfoldable pub measure : Surroundings D S → Text → D → InitialValues D → Private D × Reading D
  measure env path charge_full i =
      let disk = env.disk in
      let charge = get_micro disk path "charge_now" in
      let reported = get_state disk path in
      let (stored, hardware_rate) =
        get_rate disk path (get_energy disk path) charge charge_full i.charge_full_design
          i.priv.voltage_design in
      let energy_full = if f.lt i.energy_full stored then stored else i.energy_full in
      let voltage = get_voltage disk path in
      let (p, rate) = choose_rate i.priv hardware_rate stored env.rate_time in
      let (percentage, energy) =
        get_percentage disk path p reported charge charge_full i.skeleton.percentage
          i.skeleton.voltage voltage stored energy_full in
      let state = correct_state env.devices p.is_power_supply reported percentage energy in
      let energy_rate = if f.lt energy (f.litf 1 10) then f.litf 0 1 else rate in
      let (time_to_empty, time_to_full) =
        get_times disk path state energy energy_full energy_rate in
      (
        p,
        record {
          charge = charge;
          charge_full = charge_full;
          energy = energy;
          energy_full = energy_full;
          energy_rate = energy_rate;
          percentage = percentage;
          state = state;
          voltage = voltage;
          time_to_empty = time_to_empty;
          time_to_full = time_to_full;
          temperature = f.div (get_double disk path "temp") (f.lit 10 1);
        },
      )

module _ {D : Type 0} ⦃f : Floating D⦄ where
  -- The energy is stored, with its rate; a new state forgets all energies.
  unfoldable pub remember : DeviceState → Reading D → ℤ → Private D → Private D
  remember old_state r time p =
      let (pushed, changed) = push_new_energy p r.energy time in
      let rated = if changed then record pushed { rate_old = r.energy_rate } else pushed in
      if not (state_eq old_state r.state) then clear_energies rated else rated

module _ {S : Type 0} ⦃fs : Files S⦄ where
  -- A file `present` that does not hold 1 says that the battery was removed.
  abbrev pub is_there : S → Text → Bool
  is_there disk path =
      if file_exists disk path "present" then get_bool disk path "present" else true

module _ {D L G : Type 0} where
  abbrev pub set_present : Supply D L G → Bool → Supply D L G
  set_present s present = record s { skeleton = record s.skeleton { is_present = present } }

module _ {D S L G : Type 0} ⦃f : Floating D⦄ ⦃n : AsciiDouble D⦄ ⦃a : AsciiText⦄ ⦃fs : Files S⦄
    ⦃m : MainLoop L⦄ where
  -- A battery that is there.
  unfoldable pub refresh_present : Surroundings D S → Text → Supply D L G → Supply D L G
  refresh_present env path s =
      let charge_full = get_micro env.disk path "charge_full" in
      let i = initial env.disk path charge_full s.priv s.skeleton in
      let (p, r) = measure env path charge_full i in
      let kept = remember i.skeleton.state r env.push_time p in
      setup_unknown_poll env (record s { priv = kept; skeleton = store r i.skeleton }) r.state

  unfoldable pub refresh_battery : Surroundings D S → Text → Supply D L G → Supply D L G
  refresh_battery env path s =
      if not (is_there env.disk path)
      then reset_values (set_present s false)
      else refresh_present env path (set_present s true)
