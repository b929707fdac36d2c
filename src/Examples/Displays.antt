-- ===== src/Examples/Displays.antt =====
-- The composite battery and the icon on concrete devices.
use upower.Prelude.{◌≡◌, refl, List, [], ◌∷◌}
use upower.Floating.{Milli, milli_floating}
use upower.Types.{DeviceState}
use upower.Device.{Skeleton}
use upower.Prelude.Int.{◌+ℤ◌}
use upower.Daemon.Display.{total}
use upower.Daemon.Display.Composite.{composite, states, batteries, total-composite}
use upower.Examples.World.{number, battery}

abbrev two : List (Skeleton Milli)
two = battery DeviceState.fully_charged 40 50 ∷ battery DeviceState.pending_charge 20 50 ∷ []

total-composite_example :
    ((total two).state ≡ composite (states (batteries two)))
    × ((total two).energy ≡ number 60)
    × ((total two).energy_full ≡ number 100)
    × ((total two).energy_rate ≡ number 20)
    × ((total two).num_batteries ≡ 2)
unfolding ◌+ℤ◌
total-composite_example = total-composite two refl
