-- ===== src/History/Resolution.antt =====
-- src/up-history.c, `up_history_array_limit_resolution`: fewer points for a graph.
pub mod Range
use upower.Prelude.{
  ℕ, ◌+◌, ◌-◌, ◌/◌, ◌%◌, ◌^◌, Bool, not, ◌&&◌, ◌||◌, List, [], ◌∷◌, ◌++◌, length, ltb, ◌==◌,
  if◌then◌else◌,
}
use upower.Floating.{Floating}
use upower.Types.{DeviceState, state_eq}
use upower.History.Item.{HistoryItem}

-- The local variables of the loop; `out` is the array `new`.
pub record Bin (D : Type 0) : Type 0 where
  pub step : ℕ
  pub time_s : ℕ
  pub value : D
  pub state : DeviceState
  pub count : ℕ
  pub out : List (HistoryItem D)

abbrev pub get_time_at : {D : Type 0} → ℕ → List (HistoryItem D) → ℕ
get_time_at d [] = d
get_time_at d (item ∷ items) = item.time

-- The time of the last item; the array is not empty.
abbrev pub last_time : {D : Type 0} → ℕ → List (HistoryItem D) → ℕ
last_time d [] = d
last_time d (item ∷ items) = last_time item.time items

module _ {D : Type 0} ⦃f : Floating D⦄ where
  unfoldable pub no_bin : Bin D
  no_bin = record {
    step = 1;
    time_s = 0;
    value = f.lit 0 1;
    state = DeviceState.unknown;
    count = 0;
    out = [];
  }

  -- The average of the items that were gathered.
  abbrev pub average : Bin D → HistoryItem D
  average b = record {
    time = (b.time_s / b.count) % 2 ^ 32;
    value = f.div b.value (f.of_nat b.count);
    state = b.state;
  }

  unfoldable pub start_bin : Bin D → HistoryItem D → Bin D
  start_bin b item = record {
    step = (b.step + 1) % 2 ^ 32;
    time_s = item.time;
    value = item.value;
    state = item.state;
    count = 1;
    out = b.out ++ (average b ∷ []);
  }

  unfoldable pub add_to_bin : Bin D → HistoryItem D → Bin D
  add_to_bin b item = record b {
    count = (b.count + 1) % 2 ^ 64;
    time_s = (b.time_s + item.time) % 2 ^ 64;
    value = f.add b.value item.value;
  }

  -- The last bin is added if it holds anything.
  unfoldable pub finish : Bin D → List (HistoryItem D)
  finish b = if ltb 0 b.count then b.out ++ (average b ∷ []) else b.out

-- The times are turned into `gfloat` values, of type `F`.
module _ {F : Type 0} ⦃g : Floating F⦄ where
  -- Where the bin with the number `step` ends.
  unfoldable pub preset : F → ℕ → ℕ → F
  preset division last step = g.add (g.of_nat last) (g.mul division (g.of_nat step))

module _ {D F : Type 0} ⦃f : Floating D⦄ ⦃g : Floating F⦄ where
  -- The state changed, or the time went over the preset.
  unfoldable pub ends : F → ℕ → Bin D → HistoryItem D → Bool
  unfolding preset
  ends division last b item =
      g.lt (preset division last b.step) (g.of_nat item.time) || not (state_eq item.state b.state)

  unfoldable pub add_item : F → ℕ → Bin D → HistoryItem D → Bin D
  add_item division last b item =
      if ltb 0 b.count && ends division last b item then start_bin b item else add_to_bin b item

  unfoldable pub add_items : F → ℕ → Bin D → List (HistoryItem D) → Bin D
  add_items division last b [] = b
  add_items division last b (item ∷ items) =
      add_items division last (add_item division last b item) items

-- The first argument only names the type of `gfloat`.
module _ (F : Type 0) {D : Type 0} ⦃f : Floating D⦄ ⦃g : Floating F⦄ where
  unfoldable pub limit_resolution : List (HistoryItem D) → ℕ → List (HistoryItem D)
  limit_resolution array max_num =
      let last = last_time 0 array in
      let first = get_time_at 0 array in
      let division : F = g.div (g.of_nat ((first + 2 ^ 32 - last) % 2 ^ 32)) (g.of_nat max_num) in
      if length array == 0
      then []
      else if ltb (length array) max_num
      then array
      else finish (add_items division last no_bin array)
