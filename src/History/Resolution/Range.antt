-- ===== src/History/Resolution/Range.antt =====
-- What thinning out a history keeps of it.
use native.Mathlib.Nat.{mul-le-mul}
use upower.Prelude.{
  ℕ, suc, ◌+◌, ◌-◌, ◌*◌, ◌/◌, ◌%◌, ◌^◌, ◌≤◌, ◌<◌, ◌≡◌, List, [], ◌∷◌, length, length-append, All,
  All-append, ltb, ◌==◌, arith, Bool-cases, inl, inr, if◌then◌else◌, ltb→lt, subst,
}
use upower.Floating.{Floating}
use upower.History.Item.{HistoryItem}
use upower.History.Resolution.{
  Bin, no_bin, average, ends, start_bin, add_to_bin, finish, add_item, add_items, limit_resolution,
}

div_bounds : (x c lo hi : ℕ) → 0 < c → c * lo ≤ x → x ≤ c * hi → (lo ≤ x / c) × (x / c ≤ hi)
div_bounds x c lo hi p h k = (grind arith, grind arith)

module _ {D : Type 0} (lo hi : ℕ) where
  abbrev pub IsBetween : HistoryItem D → Type 0
  IsBetween item = (lo ≤ item.time) × (item.time ≤ hi)

  -- What the loop keeps after `n` items.
  pub record IsGathered (n : ℕ) (b : Bin D) : Type 0 where
    pub low : b.count * lo ≤ b.time_s
    pub high : b.time_s ≤ b.count * hi
    pub few : b.count ≤ n
    pub some_left : 0 < n → 0 < b.count
    pub points : All IsBetween b.out
    pub fewer_points : length b.out + (if ltb 0 b.count then 1 else 0) ≤ n

module _ {D : Type 0} ⦃f : Floating D⦄ (lo hi : ℕ) (fits : hi < 2 ^ 32) where
  average-IsBetween :
      (n : ℕ) (b : Bin D) → IsGathered lo hi n b → 0 < b.count → IsBetween lo hi (average b)
  average-IsBetween n b v h =
      let (low, high) = div_bounds b.time_s b.count lo hi h v.low v.high in omega arith

  start_bin-IsGathered :
      (n : ℕ) (b : Bin D) (item : HistoryItem D)
      → IsGathered lo hi n b
      → 0 < b.count
      → IsBetween lo hi item
      → IsGathered lo hi (suc n) (start_bin b item)
  unfolding start_bin
  start_bin-IsGathered n b item v h k = record {
    low = omega arith;
    high = omega arith;
    few = omega arith;
    some_left = λ p. omega arith;
    points =
        All-append (IsBetween lo hi) b.out (average b ∷ []) v.points
          (average-IsBetween n b v h, tt);
    fewer_points = ground (arith, length-append b.out (average b ∷ []), v.fewer_points);
  }

  add_to_bin-IsGathered :
      (n : ℕ) (b : Bin D) (item : HistoryItem D)
      → suc n < 2 ^ 32
      → IsGathered lo hi n b
      → (b.count ≡ 0 → n ≡ 0)
      → IsBetween lo hi item
      → IsGathered lo hi (suc n) (add_to_bin b item)
  unfolding add_to_bin
  add_to_bin-IsGathered n b item small v empty k =
      let c : (b.count + 1) % 2 ^ 64 ≡ b.count + 1 = omega (arith, v.few) in
      let top : (b.count + 1) * hi ≤ 2 ^ 32 * (2 ^ 32 - 1) =
        mul-le-mul {n₂ = 2 ^ 32} {m₂ = 2 ^ 32 - 1} (omega (arith, v.few)) (omega arith) in
      let t : (b.time_s + item.time) % 2 ^ 64 ≡ b.time_s + item.time = omega (arith, v.high) in
      record {
        low = rw (c, t) (omega (arith, v.low));
        high = rw (c, t) (omega (arith, v.high));
        few = rw c (omega (arith, v.few));
        some_left = λ p. rw c (omega arith);
        points = v.points;
        fewer_points = rw c (ground (arith, v.fewer_points));
      }

  no_bin-IsGathered : IsGathered lo hi 0 (no_bin {D = D})
  unfolding no_bin
  no_bin-IsGathered = record {
    low = omega arith;
    high = omega arith;
    few = omega arith;
    some_left = λ p. absurd (omega arith);
    points = tt;
    fewer_points = omega arith;
  }

  finish-IsBetween :
      (n : ℕ) (b : Bin D)
      → IsGathered lo hi n b
      → All (IsBetween lo hi) (finish b) × (length (finish b) ≤ n)
  unfolding finish
  finish-IsBetween n b v = elim (Bool-cases (ltb 0 b.count)) [
    | inl some ↦ rw some (
      All-append (IsBetween lo hi) b.out (average b ∷ []) v.points
          (average-IsBetween n b v (ltb→lt _ _ some), tt),
      ground (arith, length-append b.out (average b ∷ []), v.fewer_points),
    )
    | inr none ↦ rw none (v.points, ground (arith, v.fewer_points))
  ]

module _ {D F : Type 0} ⦃f : Floating D⦄ ⦃g : Floating F⦄ (lo hi : ℕ) (fits : hi < 2 ^ 32) where
  add_item-IsGathered :
      (division : F) (last n : ℕ) (b : Bin D) (item : HistoryItem D)
      → suc n < 2 ^ 32
      → IsGathered lo hi n b
      → IsBetween lo hi item
      → IsGathered lo hi (suc n) (add_item division last b item)
  unfolding add_item
  add_item-IsGathered division last n b item small v k = elim (Bool-cases (ltb 0 b.count)) [
    | inr none ↦
        rw none
          (add_to_bin-IsGathered lo hi fits n b item small v (λ e. ground (arith, v.some_left)) k)
    | inl some ↦ elim (Bool-cases (ends division last b item)) [
      | inl new ↦ rw some (rw new (start_bin-IsGathered lo hi fits n b item v (ltb→lt _ _ some) k))
      | inr old ↦ rw some (
          rw old (
            add_to_bin-IsGathered lo hi fits n b item small v (λ e. ground (arith, v.some_left)) k))
    ]
  ]

  add_items-IsGathered :
      (division : F) (last n : ℕ) (b : Bin D) (items : List (HistoryItem D))
      → n + length items < 2 ^ 32
      → IsGathered lo hi n b
      → All (IsBetween lo hi) items
      → IsGathered lo hi (n + length items) (add_items division last b items)
  unfolding add_items
  add_items-IsGathered division last n b [] small v k =
      subst (λ j. IsGathered lo hi j b) (omega arith) v
  add_items-IsGathered division last n b (item ∷ items) small v (k, ks) =
      subst
        (λ j. IsGathered lo hi j (add_items division last (add_item division last b item) items))
        (omega arith)
        (add_items-IsGathered division last (suc n) (add_item division last b item) items
          (omega arith) (add_item-IsGathered division last n b item (omega arith) v k) ks)

module _ (F : Type 0) {D : Type 0} ⦃f : Floating D⦄ ⦃g : Floating F⦄ (lo hi : ℕ)
    (fits : hi < 2 ^ 32) where
  -- Thinning out does not leave the range of the data: if every time lies between two bounds, so
  -- does every time of the result, which has no more points than the data. The bounds are `guint`
  -- values, and the array has fewer than 2 ^ 32 items.
  pub limit_resolution_range :
      (array : List (HistoryItem D)) (max_num : ℕ)
      → length array < 2 ^ 32
      → All (IsBetween lo hi) array
      → All (IsBetween lo hi) (limit_resolution F array max_num)
        × (length (limit_resolution F array max_num) ≤ length array)
  unfolding limit_resolution
  limit_resolution_range array max_num small k = elim (Bool-cases (length array == 0)) [
    | inl e ↦ rw e (tt, omega arith)
    | inr ne ↦ elim (Bool-cases (ltb (length array) max_num)) [
      | inl few ↦ rw ne (rw few (k, omega arith))
      | inr many ↦
          let (between, fewer) = finish-IsBetween lo hi fits (0 + length array) _ (
            add_items-IsGathered {F = F} lo hi fits _ _ 0 no_bin array (omega arith)
              (no_bin-IsGathered lo hi fits) k) in
          rw ne (rw many (between, omega (arith, fewer)))
    ]
  ]
