-- ===== src/History/Graph/Span.antt =====
-- src/up-history.c: what the data of a graph can show.
use upower.Prelude.{
  ℕ, ◌^◌, ◌≤◌, ◌<◌, ◌≡◌, ◌==◌, List, [], ◌∷◌, length, length-append, All, All-append, Option, none,
  some, sym, subst, arith, Bool-cases, Option-cases, inl, inr,
}
use upower.Floating.{Floating}
use upower.History.Item.{HistoryItem}
use upower.History.Resolution.Range.{IsBetween, limit_resolution_range}
use upower.History.Recorder.{History}
use upower.History.Graph.{
  HistoryType, is_recent, newest_first, shortened, data_of, copy_array_timespan,
  copy_array_timespan-newest_first, limit, get_data,
}

module _ {D : Type 0} (lo hi : ℕ) where
  -- What a result can be: points in the range, and no more than there were.
  abbrev pub IsWithin : ℕ → Option (List (HistoryItem D)) → Type 0
  IsWithin n none = Unit
  IsWithin n (some points) = All (IsBetween lo hi) points × (length points ≤ n)

  newest_first-IsWithin :
      (span now : ℕ) (items : List (HistoryItem D))
      → All (IsBetween lo hi) items
      → IsWithin (length items) (some (newest_first span now items))
  unfolding newest_first
  newest_first-IsWithin span now [] k = (tt, omega arith)
  newest_first-IsWithin span now (item ∷ items) (k, ks) =
      let (all, fewer) = newest_first-IsWithin span now items ks in
      let rest = newest_first span now items in
      elim (Bool-cases (is_recent span now item)) [
        | inl recent ↦ rw recent (
          All-append (IsBetween lo hi) rest (item ∷ []) all (k, tt),
          omega (arith, length-append rest (item ∷ []), fewer),
        )
        | inr old ↦ rw old (
          All-append (IsBetween lo hi) rest [] all tt,
          omega (arith, length-append rest [], fewer),
        )
      ]

module _ (F : Type 0) {D : Type 0} ⦃f : Floating D⦄ ⦃g : Floating F⦄ (lo hi : ℕ)
    (fits : hi < 2 ^ 32) where
  copy_array_timespan-IsWithin :
      (array : List (HistoryItem D)) (timespan now : ℕ)
      → All (IsBetween lo hi) array
      → IsWithin lo hi (length array) (copy_array_timespan F array timespan now)
  unfolding copy_array_timespan
  copy_array_timespan-IsWithin [] timespan now k = tt
  copy_array_timespan-IsWithin (first ∷ items) timespan now (k, ks) =
      elim (Bool-cases (timespan == 0)) [
        | inl none_given ↦ rw none_given ((k, ks), omega arith)
        | inr given ↦
            let (all, fewer) = newest_first-IsWithin lo hi (shortened F timespan) now items ks in
            let e =
              copy_array_timespan-newest_first F first items timespan now
                (λ z. ground (arith, given)) in
            subst (IsWithin lo hi (length (first ∷ items))) (sym e) (all, omega (arith, fewer))
      ]

  limit-IsWithin :
      (n resolution : ℕ) (o : Option (List (HistoryItem D)))
      → n < 2 ^ 32
      → IsWithin lo hi n o
      → IsWithin lo hi n (limit F resolution o)
  limit-IsWithin n resolution none small k = tt
  limit-IsWithin n resolution (some array) small (all, few) =
      let (between, fewer) =
        limit_resolution_range F lo hi fits array resolution (omega (arith, few)) all in
      (between, omega (arith, fewer, few))

  -- A graph shows no time out of the range of the history's data of its type, and no more points
  -- than the history has. The bounds are `guint` values, and the arrays have fewer than 2 ^ 32
  -- items.
  pub get_data-IsWithin :
      (h : History D) (type : HistoryType) (items : List (HistoryItem D))
      (timespan resolution now : ℕ)
      → data_of h type ≡ some items
      → length items < 2 ^ 32
      → All (IsBetween lo hi) items
      → IsWithin lo hi (length items) (get_data F h type timespan resolution now)
  unfolding get_data
  get_data-IsWithin h type items timespan resolution now e small k = elim (Option-cases h.id) [
    | inl nameless ↦ rw nameless tt
    | inr (id, named) ↦
        rw (named, e)
          (limit-IsWithin (length items) resolution _ small
            (copy_array_timespan-IsWithin items timespan now k))
  ]
