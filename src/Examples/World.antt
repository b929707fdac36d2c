-- ===== src/Examples/World.antt =====
-- A small system: a laptop with two batteries, an AC adapter and a UPS.
use upower.Prelude.{ℕ, true, false, none, [], ◌∷◌, ◌==◌, if◌then◌else◌}
use upower.Prelude.Int.{pos}
use upower.Floating.{Milli, milli_floating}
use upower.MainLoop.{Sources, no_sources}
use upower.Storage.{FloatText, Memory}
use upower.Prelude.Text.Decimal.{print_int, atoi}
use upower.Types.{DeviceKind, DeviceState, DeviceLevel}
use upower.Device.{Skeleton, new_skeleton, DeviceClass, UpDevice}
use upower.Daemon.{Daemon, System}
use upower.Daemon.Policy

abbrev pub number : ℕ → Milli
number n = milli_floating.of_nat n

abbrev pub policy : Policy.Policy
policy = record {
  use_percentage_for_policy = true;
  low_percentage = 10;
  critical_percentage = 3;
  action_percentage = 2;
  low_time = 1200;
  critical_time = 300;
  action_time = 120;
}

abbrev pub blank : Skeleton Milli
blank = new_skeleton

abbrev pub battery : DeviceState → ℕ → ℕ → Skeleton Milli
battery s energy full = record blank {
  kind = DeviceKind.battery;
  power_supply = true;
  is_present = true;
  state = s;
  energy = number energy;
  energy_full = number full;
  energy_rate = number 10;
  percentage = number 50;
}

abbrev pub ups : Skeleton Milli
ups = record blank {
  kind = DeviceKind.ups;
  power_supply = true;
  is_present = true;
  state = DeviceState.discharging;
  energy = number 30;
  energy_full = number 60;
  percentage = number 80;
}

abbrev pub no_class : DeviceClass Milli
no_class = record { on_battery_method = none; online_method = none }

abbrev pub device : ℕ → UpDevice Milli
device d = record {
  klass = no_class;
  skeleton =
      if d == 1
      then battery DeviceState.discharging 20 50
      else if d == 2
      then battery DeviceState.fully_charged 40 50
      else blank;
}

abbrev pub daemon : Daemon Milli
daemon = record {
  policy = policy;
  power_devices = record { array = 1 ∷ 2 ∷ []; map_native_path_to_device = [] };
  action_timeout_id = 0;
  refresh_event_id = 0;
  polling = record { poll_timeouts = []; poll_paused = false; idle_signals = [] };
  warning_level = DeviceLevel.unknown;
  display_device = blank;
  kind = DeviceKind.unknown;
  state = DeviceState.unknown;
  percentage = number 0;
  energy = number 0;
  energy_full = number 0;
  energy_rate = number 0;
  time_to_empty = pos 0;
  time_to_full = pos 0;
  on_battery = false;
  lid_is_closed = false;
  lid_is_present = false;
}

abbrev pub system : System Milli Sources
system = record { daemon = daemon; device = device; loop = no_sources; actions = 0 }

-- A printer of whole numbers is enough for a test.
instance abbrev pub milli_text : FloatText Milli
milli_text = record {
  format_3f = λ x. print_int (milli_floating.to_uint x);
  atof = λ t. number (atoi t);
}

abbrev pub empty_disk : Memory
empty_disk = record { at = λ path. none }
