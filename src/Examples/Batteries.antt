-- ===== src/Examples/Batteries.antt =====
-- The values that src/linux/up-device-supply.c works out for the battery of `Supplies`.
use upower.Prelude.{
  ◌≡◌, refl, ◌⊎◌, Bool, true, false, [], ◌∷◌, ◌==◌, none, some, arith, if◌then◌else◌,
}
use upower.Prelude.Int.{pos}
use upower.Prelude.Text.{Text}
use upower.Floating.{Milli, milli_floating, milli-IsLiteral}
use upower.Storage.{memory_files}
use upower.MainLoop.{Sources, sources_loop}
use upower.Types.{DeviceKind, DeviceState}
use upower.Device.{UpDevice}
use upower.Daemon.{System}
use upower.Supply.{Private, Supply}
use upower.Supply.Rate.{no_sums, rounds}
use upower.Supply.Rate.Ring.{IsRing, rotate, usable, regress, rounds-regress}
use upower.Supply.Texts.{make_safe_text}
use upower.Supply.Texts.Safe.{printable, make_safe_text-printable}
use upower.Supply.Battery.{Reading, refresh_battery}
use upower.Supply.Battery.Bounds.{IsBounded, refresh_battery-IsBounded}
use upower.Supply.Refresh.{refresh, supply_class}
use upower.Supply.Errors.{IsFault, refresh-cases}
use upower.Examples.World.{number, blank, battery, system}
use upower.Examples.Polls.{Handlers, handlers_signals}
use upower.Examples.Supplies.{plain_text, plain_double, path, env, fresh}

abbrev ring : Private Milli
ring = record fresh.priv {
  energy_old = number 20 ∷ number 23 ∷ number 22 ∷ number 21 ∷ [];
  energy_old_timespec = pos 400 ∷ pos 100 ∷ pos 200 ∷ pos 300 ∷ [];
}

ring-IsRing : IsRing ring
ring-IsRing = record { energies = refl; times = refl; position = omega arith }

rounds-regress_example :
    rounds 9 ring (number 20) (pos 400) ring.energy_old_first no_sums
    ≡ regress (number 20) (pos 400) (
        usable
          (rotate ring.energy_old_first ring.energy_old)
          (rotate ring.energy_old_first ring.energy_old_timespec))
rounds-regress_example = rounds-regress 9 ring (number 20) (pos 400) ring-IsRing (omega arith)

-- A text that is no ASCII.
abbrev garbage : Text
garbage = b'A' ∷ 200 ∷ b'B' ∷ 7 ∷ []

make_safe_text-printable_example :
    make_safe_text garbage
    ≡ (if plain_text.utf8_validate garbage then garbage else printable garbage)
make_safe_text-printable_example =
    make_safe_text-printable garbage
      ((λ e. ground arith), ((λ e. ground arith), ((λ e. ground arith), ((λ e. ground arith), tt))))

refresh_battery-IsBounded_example : IsBounded (refresh_battery env path fresh).skeleton
refresh_battery-IsBounded_example = refresh_battery-IsBounded milli-IsLiteral env path fresh

abbrev reading : Reading Milli
reading = record {
  charge = number 0;
  charge_full = number 0;
  energy = number 19;
  energy_full = number 50;
  energy_rate = number 9;
  percentage = number 38;
  state = DeviceState.discharging;
  voltage = number 12;
  time_to_empty = pos 0;
  time_to_full = pos 0;
  temperature = number 30;
}

abbrev line : Bool → UpDevice Milli
line online = record {
  klass = supply_class;
  skeleton = record blank { kind = DeviceKind.line_power; online = online };
}

abbrev laptop : UpDevice Milli
laptop = record { klass = supply_class; skeleton = battery DeviceState.discharging 20 50 }

refresh-cases_example :
    ((t : Supply Milli Sources Handlers) × (refresh env path fresh ≡ some (t, true))
      × (¬ IsFault env path fresh))
    ⊎ (IsFault env path fresh × (refresh env path fresh ≡ none))
refresh-cases_example = refresh-cases env path fresh

abbrev laptops : System Milli Sources
laptops = record system { device = λ d. if d == 1 then laptop else line false }
