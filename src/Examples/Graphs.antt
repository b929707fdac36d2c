-- ===== src/Examples/Graphs.antt =====
-- Graphs and profiles of src/up-history.c, from concrete points.
use upower.Prelude.{ℕ, ◌≡◌, refl, List, [], ◌∷◌, length, some, arith}
use upower.Prelude.Int.{◌+ℤ◌, ◌*ℤ◌, div_ℤ}
use upower.Floating.{Milli, milli_floating}
use upower.Types.{DeviceState}
use upower.History.Item.{HistoryItem}
use upower.History.Resolution.{
  limit_resolution, finish, add_items, add_item, no_bin, add_to_bin, ends, start_bin,
}
use upower.History.Recorder.{History}
use upower.History.Graph.{
  copy_array_timespan, newest_first, shortened, copy_array_timespan-newest_first,
}
use upower.Examples.World.{number}
use upower.Examples.Recorders.{charged}

abbrev point : ℕ → ℕ → DeviceState → HistoryItem Milli
point time percentage state = record { time = time; value = number percentage; state = state }

abbrev pub points : List (HistoryItem Milli)
points =
    point 1000 10 DeviceState.charging
    ∷ point 1060 11 DeviceState.charging
    ∷ point 1120 12 DeviceState.charging
    ∷ point 1180 13 DeviceState.charging
    ∷ []

-- Two points are left of four.
thinned : length (limit_resolution Milli points 2) ≡ 2
unfolding limit_resolution finish add_items add_item no_bin add_to_bin ends start_bin ◌+ℤ◌ div_ℤ
    ◌*ℤ◌
thinned = refl

copy_array_timespan-newest_first_example :
    copy_array_timespan Milli points 100 1200
    ≡ some (
        newest_first (shortened Milli 100) 1200 (
          point 1060 11 DeviceState.charging
          ∷ point 1120 12 DeviceState.charging
          ∷ point 1180 13 DeviceState.charging
          ∷ []))
copy_array_timespan-newest_first_example =
    copy_array_timespan-newest_first Milli _ _ 100 1200 (λ e. omega arith)

abbrev history : History Milli
history = record charged.history { data_charge = points }
