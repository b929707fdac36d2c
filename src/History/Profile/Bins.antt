-- ===== src/History/Profile/Bins.antt =====
-- src/up-history.c: the bins of a profile, and which of them have samples.
use upower.Prelude.{
  ℕ, ◌<◌, ◌≡◌, refl, Bool, true, false, ◌==◌, List, [], ◌∷◌, length, length-set, length-replicate,
  length-map, map-replicate, replicate, map, Option, none, some, All, All-map, ap, ◌∙◌, arith,
  Bool-cases, inl, inr,
}
use upower.Floating.{Floating, IsNumber, fabs}
use upower.History.Item.{HistoryItem}
use upower.History.Profile.{
  StatsItem, Scan, new_stats, wanted, bin_of, add_sample, compare_items, enter_bin, same_state,
  scan_item, scan_items, mean_of, scale, get_profile_data,
}

module _ {D : Type 0} ⦃f : Floating D⦄ where
  bin_of-bound : (len : ℕ) (value : D) → 0 < len → bin_of len value < len
  unfolding bin_of
  bin_of-bound len value h = ground arith

  -- What every sample keeps, the scan keeps.
  module _ (Q : List (StatsItem D) → Type 0) (charging : Bool) where
    abbrev Keeps : HistoryItem D → Type 0
    Keeps item =
        wanted charging item.state ≡ true
        → (bin time_s : ℕ) (stats : List (StatsItem D)) → Q stats
        → Q (add_sample bin time_s stats)

    compare_items-keeps :
        (bin : ℕ) (old item : HistoryItem D) (c : Scan D)
        → Keeps item
        → Q c.stats
        → Q (compare_items charging bin old item c).stats
    unfolding compare_items
    compare_items-keeps bin old item c step q =
        elim (Bool-cases (f.lt (fabs (f.sub item.value old.value)) (f.litf 1 100))) [
          | inl small ↦ rw small q
          | inr enough ↦ elim (Bool-cases (f.lt (f.litf 3 1) (fabs (f.sub item.value old.value)))) [
            | inl large ↦ rw (enough, large) q
            | inr fits ↦ elim (Bool-cases (wanted charging item.state)) [
              | inl counts ↦ rw (enough, fits, counts) (step counts _ _ _ q)
              | inr ignored ↦ rw (enough, fits, ignored) q
            ]
          ]
        ]

    enter_bin-keeps :
        (bin : ℕ) (item : HistoryItem D) (old : Option (HistoryItem D)) (c : Scan D)
        → Keeps item
        → Q c.stats
        → Q (enter_bin charging bin item old c).stats
    enter_bin-keeps bin item none c step q = q
    enter_bin-keeps bin item (some old) c step q = compare_items-keeps bin old item c step q

    scan_item-keeps :
        (c : Scan D) (item : HistoryItem D)
        → Keeps item
        → Q c.stats
        → Q (scan_item charging c item).stats
    unfolding scan_item
    scan_item-keeps c item step q =
        let bin = bin_of (length c.stats) item.value in
        elim (Bool-cases (same_state item c.item_last)) [
          | inr changed ↦ rw changed q
          | inl same ↦ elim (Bool-cases (c.oldbin == bin)) [
            | inl stays ↦ rw (same, stays) q
            | inr enters ↦
                rw (same, enters)
                  (enter_bin-keeps bin item c.item_old (record c { oldbin = bin }) step q)
          ]
        ]

    scan_items-keeps :
        (c : Scan D) (items : List (HistoryItem D))
        → All Keeps items
        → Q c.stats
        → Q (scan_items charging c items).stats
    unfolding scan_items
    scan_items-keeps c [] steps q = q
    scan_items-keeps c (item ∷ items) (step, steps) q =
        scan_items-keeps (scan_item charging c item) items steps (scan_item-keeps c item step q)

  abbrev pub start : Scan D
  start = record {
    oldbin = 999;
    item_old = none;
    item_last = none;
    stats = replicate 101 new_stats;
  }

  all_items {κ} :
      {P : HistoryItem D → Type κ}
      → ((item : HistoryItem D) → P item)
      → (items : List (HistoryItem D)) → All P items
  all_items h [] = tt
  all_items h (item ∷ items) = (h item, all_items h items)

  scan_items-length :
      (charging : Bool) (items : List (HistoryItem D))
      → length (scan_items charging start items).stats ≡ 101
  scan_items-length charging items =
      scan_items-keeps (λ stats. length stats ≡ 101) charging start items
        (all_items (λ item w bin t stats e. length-set stats bin _ ∙ e) items)
        (length-replicate 101 (new_stats {D = D}))

  scan_items-idle :
      (charging : Bool) (items : List (HistoryItem D))
      → All (λ (item : HistoryItem D). wanted charging item.state ≡ false) items
      → (scan_items charging start items).stats ≡ replicate 101 new_stats
  scan_items-idle charging items h =
      scan_items-keeps (λ stats. stats ≡ replicate 101 new_stats) charging start items
        (All-map items (λ item e w bin t stats q. absurd (cc)) h) refl

  -- There is a bin for each percentage.
  pub length-get_profile_data :
      (items : List (HistoryItem D)) (charging : Bool)
      → length (get_profile_data items charging) ≡ 101
  unfolding get_profile_data
  length-get_profile_data items charging =
      let stats = (scan_items charging start items).stats in
      length-map (scale _) (map mean_of stats)
      ∙ (length-map mean_of stats ∙ scan_items-length charging items)

  -- A battery that was never seen in the state that is asked for, charging or discharging, has a
  -- flat profile: the value of every bin is 0, for any numbers whose 0 equals itself and is not
  -- below itself.
  get_profile_data_flat :
      (items : List (HistoryItem D)) (charging : Bool)
      → IsNumber (f.lit 0 1)
      → f.lt (f.lit 0 1) (f.lit 0 1) ≡ false
      → All (λ (item : HistoryItem D). wanted charging item.state ≡ false) items
      → map (λ (stats : StatsItem D). stats.value) (get_profile_data items charging)
        ≡ replicate 101 (f.litf 0 1)
  unfolding get_profile_data scale
  get_profile_data_flat items charging equal least h =
      let mean : mean_of {D = D} new_stats ≡ new_stats = rw equal refl in
      let value : D → D = λ average. (scale average new_stats).value in
      let flat : (average : D) → value average ≡ f.litf 0 1 = λ average. rw least refl in
      rw (scan_items-idle charging items h, map-replicate mean_of 101 (new_stats {D = D}), mean)
        (ap (map (λ (stats : StatsItem D). stats.value))
            (map-replicate (scale _) 101 (new_stats {D = D}))
          ∙ (map-replicate (λ (stats : StatsItem D). stats.value) 101 (scale _ new_stats)
              ∙ ap (replicate 101) (flat _)))
