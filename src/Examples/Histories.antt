-- ===== src/Examples/Histories.antt =====
-- src/up-history.c on concrete histories.
use upower.Prelude.{none, if◌then◌else◌, ◌≡◌, refl, true, some, [], ◌∷◌, ◌++◌, arith}
use upower.Prelude.Text.{codes, text_eq}
use upower.Prelude.Text.Decimal.{print_int}
use upower.Floating.{Milli, milli_floating}
use upower.Storage.{plain_splitter, plain-IsSplitter, Memory, memory_files, memory-IsFiles}
use upower.Types.{DeviceState}
use upower.Types.Names.{state_to_string}
use upower.History.Item.{HistoryItem, IsStorable, to_string, rounded}
use upower.History.File.{array_to_file, array_from_file, array_from_file-array_to_file}
use upower.Examples.World.{number, milli_text, empty_disk}

abbrev item : HistoryItem Milli
item = record { value = number 50; time = 1000; state = DeviceState.charging }

abbrev old_item : HistoryItem Milli
old_item = record { value = number 50; time = 10; state = DeviceState.charging }

line : to_string item ≡ codes "1000" ++ (9 ∷ (codes "50" ++ (9 ∷ codes "charging")))
unfolding to_string print_int state_to_string
line = refl

-- The disk after the older item was left out.
abbrev written : Memory
written = record {
  at = λ path. if text_eq path (codes "h") then some (to_string item ++ (10 ∷ [])) else none;
}

item-IsStorable : IsStorable item
item-IsStorable = record { time_fits = omega arith; state_named = λ e. cc }

old_item-IsStorable : IsStorable old_item
old_item-IsStorable = record { time_fits = omega arith; state_named = λ e. cc }

array_from_file-array_to_file_example :
    array_from_file [] (codes "h") written ≡ (rounded item ∷ [], true)
unfolding array_to_file print_int
array_from_file-array_to_file_example =
    array_from_file-array_to_file plain-IsSplitter memory-IsFiles 60 1020 [] (old_item ∷ item ∷ [])
      (codes "h") empty_disk written (omega arith) (old_item-IsStorable, (item-IsStorable, tt)) refl
