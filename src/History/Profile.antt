-- ===== src/History/Profile.antt =====
-- src/up-history.c, `up_history_get_profile_data`, and libupower-glib/up-stats-item.c: how fast the
-- battery charges or discharges at each percentage.
pub mod Bins
use upower.Prelude.{
  ℕ, ◌+◌, ◌-◌, ◌^◌, ◌%◌, ◌≡◌, refl, Bool, true, false, not, ◌&&◌, ◌||◌, leb, ltb, ◌==◌, List, [],
  ◌∷◌, length, get_or, set, replicate, map, Option, none, some, if◌then◌else◌,
}
use upower.Floating.{Floating, fabs}
use upower.Types.{DeviceState, state_eq}
use upower.History.Item.{HistoryItem}

-- `UpStatsItemPrivate`
pub record StatsItem (D : Type 0) : Type 0 where
  pub value : D
  pub accuracy : D

-- The local variables of the loop. The items that it remembers are `item_old` and `item_last`.
pub record Scan (D : Type 0) : Type 0 where
  pub oldbin : ℕ
  pub item_old : Option (HistoryItem D)
  pub item_last : Option (HistoryItem D)
  pub stats : List (StatsItem D)

abbrev pub wanted : Bool → DeviceState → Bool
wanted charging state =
    (charging && state_eq state DeviceState.charging)
    || (not charging && state_eq state DeviceState.discharging)

module _ {D : Type 0} ⦃f : Floating D⦄ where
  abbrev pub new_stats : StatsItem D
  new_stats = record { value = f.lit 0 1; accuracy = f.lit 0 1 }

  abbrev pub set_value : StatsItem D → D → StatsItem D
  set_value stats value = record stats { value = value }

  -- The accuracy is kept between 0 and 100.
  abbrev pub set_accuracy : StatsItem D → D → StatsItem D
  set_accuracy stats accuracy = record stats {
    accuracy =
        if f.lt accuracy (f.litf 0 1)
        then f.litf 0 1
        else if f.lt (f.litf 100 1) accuracy
        then f.litf 100 1
        else accuracy;
  }

  -- The bin of a percentage, which ends with the last one of `len`.
  unfoldable pub bin_of : ℕ → D → ℕ
  bin_of len value = let bin = f.to_uint (f.rint value) in if leb len bin then len - 1 else bin

  -- One sample for a bin; the accuracy counts them.
  abbrev pub add_sample : ℕ → ℕ → List (StatsItem D) → List (StatsItem D)
  add_sample bin time_s stats =
      let old = get_or stats bin new_stats in
      let timed = set_value old (f.add old.value (f.of_nat time_s)) in
      set stats bin (set_accuracy timed (f.add timed.accuracy (f.lit 1 1)))

  -- The percentage went from the bin of `old` to another one, that of `item`.
  unfoldable pub compare_items : Bool → ℕ → HistoryItem D → HistoryItem D → Scan D → Scan D
  compare_items charging bin old item c =
      let value = fabs (f.sub item.value old.value) in
      let time_s = (item.time + 2 ^ 32 - old.time) % 2 ^ 32 in
      if f.lt value (f.litf 1 100)
      then record c { item_old = none }
      else if f.lt (f.litf 3 1) value
      then record c { item_old = none }
      else if wanted charging item.state
      then record c { item_old = some item; stats = add_sample bin time_s c.stats }
      else record c { item_old = some item }

  abbrev pub enter_bin : Bool → ℕ → HistoryItem D → Option (HistoryItem D) → Scan D → Scan D
  enter_bin charging bin item none c = record c { item_old = some item }
  enter_bin charging bin item (some old) c = compare_items charging bin old item c

  abbrev pub same_state : HistoryItem D → Option (HistoryItem D) → Bool
  same_state item none = false
  same_state item (some last) = state_eq item.state last.state

  -- One round of the loop.
  unfoldable pub scan_item : Bool → Scan D → HistoryItem D → Scan D
  unfolding bin_of compare_items
  scan_item charging c item =
      let bin = bin_of (length c.stats) item.value in
      let scanned =
        if not (same_state item c.item_last)
        then record c { item_old = none }
        else if not (c.oldbin == bin)
        then enter_bin charging bin item c.item_old (record c { oldbin = bin })
        else c in
      record scanned { item_last = some item }

  unfoldable pub scan_items : Bool → Scan D → List (HistoryItem D) → Scan D
  scan_items charging c [] = c
  scan_items charging c (item ∷ items) = scan_items charging (scan_item charging c item) items

  -- The mean of the samples of a bin.
  abbrev pub mean_of : StatsItem D → StatsItem D
  mean_of stats =
      if not (f.eq stats.accuracy (f.lit 0 1))
      then set_value stats (f.div stats.value stats.accuracy)
      else stats

  -- The sum of the bins that have samples, and their number.
  unfoldable pub sum_up : D → ℕ → List (StatsItem D) → D × ℕ
  sum_up total count [] = (total, count)
  sum_up total count (stats ∷ rest) =
      if f.lt (f.lit 0 1) stats.accuracy
      then sum_up (f.add total stats.value) (count + 1) rest
      else sum_up total count rest

  -- The average is a `gfloat`.
  abbrev pub average_of : D × ℕ → D
  average_of (total, count) =
      if not (count == 0) then f.narrow (f.div total (f.of_nat count)) else f.litf 0 1

  -- The value as a factor of the average, and the accuracy as a percentage.
  unfoldable pub scale : D → StatsItem D → StatsItem D
  scale average stats =
      let scaled =
        if f.lt (f.lit 0 1) stats.accuracy
        then set_value stats (f.div (f.sub stats.value average) average)
        else set_value stats (f.litf 0 1) in
      set_accuracy scaled (f.mul scaled.accuracy (f.litf 20 1))

  unfoldable pub get_profile_data : List (HistoryItem D) → Bool → List (StatsItem D)
  get_profile_data data_charge charging =
      let empty : Scan D = record {
        oldbin = 999;
        item_old = none;
        item_last = none;
        stats = replicate 101 new_stats;
      } in
      let means = map mean_of (scan_items charging empty data_charge).stats in
      map (scale (average_of (sum_up (f.litf 0 1) 0 means))) means
