-- ===== src/History/Graph.antt =====
-- src/up-history.c, `up_history_get_data`: the points of the last hours or days, for a graph.
pub mod Span
use upower.Prelude.{
  ℕ, zero, suc, ◌+◌, ◌-◌, ◌≡◌, refl, Bool, ◌==◌, ltb, List, [], ◌∷◌, ◌++◌, length, get_elem?,
  Option, none, some, if◌then◌else◌, ap, ◌∙◌, arith, ==→eq, ◌≢◌, Option-cases, Bool-cases, inl, inr,
}
use upower.Floating.{Floating}
use upower.History.Item.{HistoryItem}
use upower.History.Resolution.{limit_resolution}
use upower.History.Recorder.{History}

-- `UpHistoryType`
pub data HistoryType : Type 0 where
  charge : HistoryType
  rate : HistoryType
  time_full : HistoryType
  time_empty : HistoryType
  unknown : HistoryType

module _ {D : Type 0} where
  -- Whether an item is younger than the span.
  abbrev pub is_recent : ℕ → ℕ → HistoryItem D → Bool
  is_recent span now item = ltb now (item.time + span)

  -- One round; `none` is for an index out of bounds.
  add_recent : ℕ → ℕ → Option (HistoryItem D) → List (HistoryItem D) → List (HistoryItem D)
  add_recent span now none copy = copy
  add_recent span now (some item) copy = if is_recent span now item then item ∷ copy else copy

  -- The loop, from the index `i` down to 1.
  pub search_backwards : ℕ → ℕ → List (HistoryItem D) → ℕ → List (HistoryItem D)
  search_backwards span now array zero = []
  search_backwards span now array (suc i) =
      add_recent span now (get_elem? array (suc i)) (search_backwards span now array i)

  -- The array that the history has for a type.
  abbrev pub data_of : History D → HistoryType → Option (List (HistoryItem D))
  data_of h HistoryType.charge = some h.data_charge
  data_of h HistoryType.rate = some h.data_rate
  data_of h HistoryType.time_full = some h.data_time_full
  data_of h HistoryType.time_empty = some h.data_time_empty
  data_of h HistoryType.unknown = none

-- `timespan *= 0.95f`, by way of a `gfloat`.
module _ (F : Type 0) ⦃g : Floating F⦄ where
  abbrev pub shortened : ℕ → ℕ
  shortened timespan = g.to_uint (g.mul (g.of_nat timespan) (g.lit 95 100))

  module _ {D : Type 0} where
    -- `none` is `NULL`. Without a span, the result is the array itself.
    unfoldable pub copy_array_timespan :
        List (HistoryItem D) → ℕ → ℕ → Option (List (HistoryItem D))
    unfolding search_backwards add_recent
    copy_array_timespan [] timespan now = none
    copy_array_timespan (item ∷ items) timespan now =
        if timespan == 0
        then some (item ∷ items)
        else some (search_backwards (shortened timespan) now (item ∷ items) (length items))

  module _ {D : Type 0} ⦃f : Floating D⦄ where
    abbrev pub limit : ℕ → Option (List (HistoryItem D)) → Option (List (HistoryItem D))
    limit resolution none = none
    limit resolution (some array) = some (limit_resolution F array resolution)

    abbrev pub get_array : Option (List (HistoryItem D)) → ℕ → ℕ → ℕ → Option (List (HistoryItem D))
    get_array none timespan resolution now = none
    get_array (some items) timespan resolution now =
        limit resolution (copy_array_timespan items timespan now)

    unfoldable pub get_data : History D → HistoryType → ℕ → ℕ → ℕ → Option (List (HistoryItem D))
    get_data h type timespan resolution now = elim h.id [
      | none ↦ none
      | some id ↦ get_array (data_of h type) timespan resolution now
    ]

module _ {D : Type 0} where
  -- The recent ones of some items, the last first.
  pub newest_first : ℕ → ℕ → List (HistoryItem D) → List (HistoryItem D)
  newest_first span now [] = []
  newest_first span now (item ∷ items) =
      newest_first span now items ++ (if is_recent span now item then item ∷ [] else [])

  add_recent-append :
      (span now : ℕ) (o : Option (HistoryItem D)) (copy last : List (HistoryItem D))
      → add_recent span now o (copy ++ last) ≡ add_recent span now o copy ++ last
  unfolding add_recent
  add_recent-append span now none copy last = refl
  add_recent-append span now (some item) copy last = elim (Bool-cases (is_recent span now item)) [
    | inl recent ↦ rw recent refl
    | inr old ↦ rw old refl
  ]

  search_backwards-shift :
      (span now : ℕ) (first item : HistoryItem D) (items : List (HistoryItem D)) (i : ℕ)
      → search_backwards span now (first ∷ item ∷ items) (suc i)
        ≡ search_backwards span now (item ∷ items) i
          ++ (if is_recent span now item then item ∷ [] else [])
  unfolding search_backwards add_recent
  search_backwards-shift span now first item items zero =
      elim (Bool-cases (is_recent span now item)) [
        | inl recent ↦ rw recent refl
        | inr old ↦ rw old refl
      ]
  search_backwards-shift span now first item items (suc i) =
      ap (add_recent span now (get_elem? items i))
        (search_backwards-shift span now first item items i)
      ∙ add_recent-append span now (get_elem? items i) _ _

  search_backwards-newest_first :
      (span now : ℕ) (first : HistoryItem D) (items : List (HistoryItem D))
      → search_backwards span now (first ∷ items) (length items) ≡ newest_first span now items
  unfolding search_backwards newest_first
  search_backwards-newest_first span now first [] = refl
  search_backwards-newest_first span now first (item ∷ items) =
      rw
        (
          search_backwards-shift span now first item items (length items),
          search_backwards-newest_first span now item items,
        )
        refl

module _ (F : Type 0) ⦃g : Floating F⦄ {D : Type 0} where
  -- With a span, the copy holds the items that are younger than 95% of the span, the newest first,
  -- but never the first item of the array, however young it is.
  pub copy_array_timespan-newest_first :
      (first : HistoryItem D) (items : List (HistoryItem D)) (timespan now : ℕ)
      → timespan ≢ 0
      → copy_array_timespan F (first ∷ items) timespan now
        ≡ some (newest_first (shortened F timespan) now items)
  unfolding copy_array_timespan
  copy_array_timespan-newest_first first items timespan now limited =
      elim (Bool-cases (timespan == 0)) [
        | inl none_given ↦ absurd (limited (==→eq _ _ none_given))
        | inr given ↦
            rw (given, search_backwards-newest_first (shortened F timespan) now first items) refl
      ]
