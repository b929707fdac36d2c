-- ===== src/Device/Requests/Replies.antt =====
-- src/up-device.c: the replies to the requests for a history and for statistics.
use upower.Prelude.{
  ℕ, ◌^◌, ◌≤◌, ◌<◌, ◌≡◌, refl, not, List, length, All, Option, none, some, arith, if_both, if_known,
  ◌⊎◌, inl, inr,
}
use upower.Prelude.Text.{Text, codes, text_eq}
use upower.Floating.{Floating}
use upower.History.Item.{HistoryItem}
use upower.History.Recorder.{History}
use upower.History.Resolution.Range.{IsBetween}
use upower.History.Graph.{HistoryType, data_of, get_data}
use upower.History.Graph.Span.{IsWithin, get_data-IsWithin}
use upower.History.Profile.{StatsItem, get_profile_data}
use upower.History.Profile.Bins.{length-get_profile_data}
use upower.Prelude.{Bool, true, false, if◌then◌else◌}
use upower.Device.{Skeleton}
use upower.Device.Requests.{
  Reply, complete_get_history, complete_get_statistics, not_supported, no_data, invalid_statistics,
  history_type, is_unknown, history_reply, statistics_reply, get_history, statistics_of,
  get_statistics,
}

module _ {D : Type 0} where
  -- The reply for each request, by what the device has and what the client asks for.
  abbrev pub IsStatistics : Skeleton D → Text → Reply D → Type 0
  IsStatistics s type reply =
      ((s.has_statistics ≡ false) × (reply ≡ not_supported))
      ⊎ ((s.has_statistics ≡ true)
          × ((text_eq type (codes "charging") ≡ true) ⊎ (text_eq type (codes "discharging") ≡ true))
          × ((items : List (StatsItem D)) × (reply ≡ complete_get_statistics items)
              × (length items ≡ 101)))
      ⊎ ((s.has_statistics ≡ true)
          × (text_eq type (codes "charging") ≡ false)
          × (text_eq type (codes "discharging") ≡ false)
          × (reply ≡ no_data))

  -- A history in the range of times, with no more points than that.
  abbrev pub IsHistory : ℕ → ℕ → ℕ → Reply D → Type 0
  IsHistory lo hi n (complete_get_history items) = All (IsBetween lo hi) items × (length items ≤ n)
  IsHistory lo hi n (complete_get_statistics items) = ⊥
  IsHistory lo hi n (invalid_statistics k) = ⊥
  IsHistory lo hi n not_supported = Unit
  IsHistory lo hi n no_data = Unit

  -- The four arrays of a history in a range of times, none of them longer than that.
  pub record AreBetween (lo hi n : ℕ) (h : History D) : Type 0 where
    pub times :
        (type : HistoryType) (items : List (HistoryItem D))
        → data_of h type ≡ some items
        → All (IsBetween lo hi) items × (length items ≤ n)

  full_reply :
      (items : List (StatsItem D))
      → length items ≡ 101
      → (found : List (StatsItem D)) × (statistics_reply (some items)
          ≡ complete_get_statistics found)
        × (length found ≡ 101)
  full_reply items e = (items, rw e refl, e)

module _ {D : Type 0} ⦃f : Floating D⦄ where
  -- A device without statistics says so. One that has them answers 101 items if the client asks for
  -- one of the two types, and no data otherwise; the error about their number never comes.
  pub get_statistics-IsStatistics :
      (s : Skeleton D) (h : History D) (type : Text) → IsStatistics s type (get_statistics s h type)
  unfolding get_statistics
  get_statistics-IsStatistics s h type =
      let P = IsStatistics s type in
      let Q = λ (o : Option (List (StatsItem D))). P (statistics_reply o) in
      let profile =
        λ (charging : Bool). full_reply _ (length-get_profile_data h.data_charge charging) in
      if_known P (not s.has_statistics) {x = not_supported}
        {y = statistics_reply (statistics_of h type)} (λ none. inl (ground (arith, none), refl))
        λ has.
          let there : s.has_statistics ≡ true = ground (arith, has) in
          if_known Q (text_eq type (codes "charging"))
            {x = some (get_profile_data h.data_charge true)}
            (λ charging. inr (inl (there, inl charging, profile true)))
            λ not_charging.
              if_known Q (text_eq type (codes "discharging"))
                {x = some (get_profile_data h.data_charge false)} {y = none}
                (λ discharging. inr (inl (there, inr discharging, profile false)))
                λ neither. inr (inr (there, not_charging, neither, refl))

module _ (F : Type 0) {D : Type 0} ⦃f : Floating D⦄ ⦃g : Floating F⦄ (lo hi n : ℕ)
    (fits : hi < 2 ^ 32) (small : n < 2 ^ 32) where
  reply-IsHistory :
      (o : Option (List (HistoryItem D))) → IsWithin lo hi n o → IsHistory lo hi n (history_reply o)
  reply-IsHistory none k = tt
  reply-IsHistory (some items) k = k

  fewer-IsWithin :
      (k : ℕ) (o : Option (List (HistoryItem D))) → k ≤ n → IsWithin lo hi k o → IsWithin lo hi n o
  fewer-IsWithin k none le h = tt
  fewer-IsWithin k (some items) le (all, few) = (all, omega (arith, le, few))

  known-IsWithin :
      (h : History D) (type : HistoryType) (items : List (HistoryItem D))
      (timespan resolution now : ℕ)
      → data_of h type ≡ some items
      → AreBetween lo hi n h
      → IsWithin lo hi n (get_data F h type timespan resolution now)
  known-IsWithin h type items timespan resolution now e k =
      let (all, few) = k.times type items e in
      fewer-IsWithin (length items) _ few (
        get_data-IsWithin F lo hi fits h type items timespan resolution now e
          (omega (arith, few, small)) all)

  typed-IsWithin :
      (h : History D) (type : HistoryType) (timespan resolution now : ℕ)
      → AreBetween lo hi n h
      → IsWithin lo hi n
          (if not (is_unknown type) then get_data F h type timespan resolution now else none)
  typed-IsWithin h HistoryType.charge timespan resolution now k =
      known-IsWithin h HistoryType.charge _ timespan resolution now refl k
  typed-IsWithin h HistoryType.rate timespan resolution now k =
      known-IsWithin h HistoryType.rate _ timespan resolution now refl k
  typed-IsWithin h HistoryType.time_full timespan resolution now k =
      known-IsWithin h HistoryType.time_full _ timespan resolution now refl k
  typed-IsWithin h HistoryType.time_empty timespan resolution now k =
      known-IsWithin h HistoryType.time_empty _ timespan resolution now refl k
  typed-IsWithin h HistoryType.unknown timespan resolution now k = tt

  -- Whatever type, time span and resolution a client asks for, a device answers a history with no
  -- point outside the times of what it recorded, and with no more points than that. The times are
  -- `guint` values.
  pub get_history-IsHistory :
      (s : Skeleton D) (h : History D) (type_string : Text) (timespan resolution now : ℕ)
      → AreBetween lo hi n h
      → IsHistory lo hi n (get_history F s h type_string timespan resolution now)
  unfolding get_history
  get_history-IsHistory s h type_string timespan resolution now k =
      let type = history_type type_string in
      let array =
        if not (is_unknown type) then get_data F h type timespan resolution now else none in
      if_both (IsHistory lo hi n) (not s.has_history) {x = not_supported} {y = history_reply array}
        tt (reply-IsHistory array (typed-IsWithin h type timespan resolution now k))
