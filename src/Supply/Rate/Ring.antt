-- ===== src/Supply/Rate/Ring.antt =====
-- src/linux/up-device-supply.c: the circular buffer of the last energies.
use upower.Prelude.{
  ℕ, ◌||◌, if◌then◌else◌, zero, suc, ◌+◌, ◌<◌, subst, ◌≤◌, set, ◌≡◌, refl, ap, true, false, List,
  [], ◌∷◌, length, length-set, arith, Bool-cases, inl, inr, ◌∙◌, sym, ◌⊎◌, ◌++◌, take, drop, ◌%◌,
  ◌≢◌,
}
use upower.Prelude.Int.{ℤ, pos, ◌-ℤ◌, ◌*ℤ◌, eqb_ℤ}
use upower.Floating.{Floating, fabs}
use upower.Supply.{Private, energy_old_length}
use upower.Supply.Rate.{
  Sums, no_sums, add_point, rounds, energy_at, time_at, position_before, push_new_energy,
  calculate_rate,
}

-- Both buffers have their four places, and the position is one of them.
pub record IsRing {D : Type 0} (p : Private D) : Type 0 where
  pub energies : length p.energy_old ≡ energy_old_length
  pub times : length p.energy_old_timespec ≡ energy_old_length
  pub position : p.energy_old_first < energy_old_length

module _ {D : Type 0} ⦃f : Floating D⦄ where
  pub push_new_energy-IsRing :
      (p : Private D) (energy : D) (time : ℤ) → IsRing p → IsRing (push_new_energy p energy time).0
  unfolding push_new_energy
  push_new_energy-IsRing p energy time v =
      elim (Bool-cases (f.eq (energy_at p p.energy_old_first) energy)) [
        | inl same ↦ rw same v
        | inr new ↦ rw new (record {
          energies = length-set p.energy_old _ energy ∙ v.energies;
          times = length-set p.energy_old_timespec _ time ∙ v.times;
          position = omega arith;
        })
      ]

  pub calculate_rate-IsRing :
      (p : Private D) (energy : D) (time : ℤ) → IsRing p → IsRing (calculate_rate p energy time).0
  unfolding calculate_rate
  calculate_rate-IsRing p energy time v = ground (arith, push_new_energy-IsRing p energy time v)

-- A list from a position on, and then what stands before the position.
abbrev pub rotate {ℓ} : {A : Type ℓ} → ℕ → List A → List A
rotate n xs = drop n xs ++ take n xs

four {ℓ} : {A : Type ℓ} (xs : List A) → length xs ≡ 4 → (a b c d : A) × (xs ≡ a ∷ b ∷ c ∷ d ∷ [])
four (a ∷ b ∷ c ∷ d ∷ []) h = (a, b, c, d, refl)
four [] h = absurd (omega (arith, h))
four (a ∷ []) h = absurd (omega (arith, h))
four (a ∷ b ∷ []) h = absurd (omega (arith, h))
four (a ∷ b ∷ c ∷ []) h = absurd (omega (arith, h))
four (a ∷ b ∷ c ∷ d ∷ e ∷ es) h = absurd (omega (arith, h))

module _ {D : Type 0} ⦃f : Floating D⦄ where
  -- The added_upion over a list of points, the newest first.
  unfoldable pub added_up : D → ℤ → List D → List ℤ → Sums D → Sums D
  added_up energy now (e ∷ es) (t ∷ ts) sums =
      added_up energy now es ts (add_point energy now t e sums)
  added_up energy now [] ts sums = sums
  added_up energy now (e ∷ es) [] sums = sums

  add_at : Private D → D → ℤ → ℕ → Sums D → Sums D
  add_at p energy now i sums = add_point energy now (time_at p i) (energy_at p i) sums

  rounds_step :
      (fuel : ℕ) (p : Private D) (energy : D) (now : ℤ) (i : ℕ) (sums : Sums D)
      → (i + 1) % 4 ≢ p.energy_old_first
      → rounds (suc fuel) p energy now i sums
        ≡ rounds fuel p energy now ((i + 1) % 4) (add_at p energy now i sums)
  unfolding rounds add_at
  rounds_step fuel p energy now i sums h = ground (arith, h)

  rounds_stop :
      (fuel : ℕ) (p : Private D) (energy : D) (now : ℤ) (i : ℕ) (sums : Sums D)
      → (i + 1) % 4 ≡ p.energy_old_first
      → rounds (suc fuel) p energy now i sums ≡ add_at p energy now i sums
  unfolding rounds add_at
  rounds_stop fuel p energy now i sums h = ground (arith, h)

  rounds_around :
      (n : ℕ) (p : Private D) (energy : D) (now : ℤ) (sums : Sums D)
      → p.energy_old_first < 4
      → let i = p.energy_old_first in
        let add = add_at p energy now in
        rounds (suc (suc (suc (suc n)))) p energy now i sums
        ≡ add ((i + 3) % 4) (add ((i + 2) % 4) (add ((i + 1) % 4) (add i sums)))
  rounds_around n p energy now sums h =
      let i = p.energy_old_first in
      let second : ((i + 1) % 4 + 1) % 4 ≡ (i + 2) % 4 = omega (arith, h) in
      let third : ((i + 2) % 4 + 1) % 4 ≡ (i + 3) % 4 = omega (arith, h) in
      rounds_step _ p energy now i sums (omega (arith, h))
      ∙ rounds_step _ p energy now ((i + 1) % 4) _ (omega (arith, h))
      ∙ rw second (
          rounds_step _ p energy now ((i + 2) % 4) _ (omega (arith, h))
          ∙ rw third (rounds_stop n p energy now ((i + 3) % 4) _ (omega (arith, h))))

  added_up_around :
      (p : Private D) (energy : D) (now : ℤ) (sums : Sums D)
      → IsRing p
      → let i = p.energy_old_first in
        let add = add_at p energy now in
        added_up energy now (rotate i p.energy_old) (rotate i p.energy_old_timespec) sums
        ≡ add ((i + 3) % 4) (add ((i + 2) % 4) (add ((i + 1) % 4) (add i sums)))
  unfolding added_up add_at
  added_up_around p energy now sums v =
      let (a, b, c, d, es) = four p.energy_old v.energies in
      let (x, y, z, w, ts) = four p.energy_old_timespec v.times in
      ground (arith, es, ts, v.position)

  -- The points with a time and an energy.
  unfoldable pub usable : List D → List ℤ → List (D × ℤ)
  usable (e ∷ es) (t ∷ ts) =
      let later = usable es ts in
      if eqb_ℤ t (pos 0) || f.eq e (f.lit 0 1) then later else (e, t) ∷ later
  usable [] ts = []
  usable (e ∷ es) [] = []

  -- The sum of the squares of the times that have passed.
  unfoldable pub squares : ℤ → D → List (D × ℤ) → D
  squares now sum [] = sum
  squares now sum ((e, t) ∷ points) =
      squares now (f.add sum (f.of_int ((now -ℤ t) *ℤ (now -ℤ t)))) points

  -- The sum of the sizes of the products of time and change of energy.
  unfoldable pub products : D → ℤ → D → List (D × ℤ) → D
  products energy now sum [] = sum
  products energy now sum ((e, t) ∷ points) =
      products energy now (f.add sum (fabs (f.mul (f.of_int (t -ℤ now)) (f.sub energy e)))) points

  -- The sums of the regression, in closed form.
  unfoldable pub regress : D → ℤ → List (D × ℤ) → Sums D
  regress energy now points = record {
    sum_x = squares now (f.litf 0 1) points;
    rate = products energy now (f.litf 0 1) points;
    valid_values = length points;
  }

  with_count :
      (s : Sums D) (a b : ℕ) → a ≡ b → record s { valid_values = a } ≡ record s { valid_values = b }
  with_count s a b e = ap (λ (n : ℕ). record s { valid_values = n }) e

  added_up-usable :
      (energy : D) (now : ℤ) (es : List D) (ts : List ℤ) (sums : Sums D)
      → let points = usable es ts in
        added_up energy now es ts sums ≡ record {
          sum_x = squares now sums.sum_x points;
          rate = products energy now sums.rate points;
          valid_values = sums.valid_values + length points;
        }
  unfolding added_up usable squares products add_point
  added_up-usable energy now [] ts sums = with_count sums _ _ (omega arith)
  added_up-usable energy now (e ∷ es) [] sums = with_count sums _ _ (omega arith)
  added_up-usable energy now (e ∷ es) (t ∷ ts) sums = elim (Bool-cases (eqb_ℤ t (pos 0))) [
    | inl none ↦ rw none (added_up-usable energy now es ts sums)
    | inr timed ↦ elim (Bool-cases (f.eq e (f.lit 0 1))) [
      | inl zero_energy ↦ rw (timed, zero_energy) (added_up-usable energy now es ts sums)
      | inr used ↦
          rw (timed, used)
            (added_up-usable energy now es ts _
              ∙ with_count
                  (record {
                    sum_x =
                        squares now (f.add sums.sum_x (f.of_int ((now -ℤ t) *ℤ (now -ℤ t))))
                          (usable es ts);
                    rate =
                        products energy now
                          (f.add sums.rate (fabs (f.mul (f.of_int (t -ℤ now)) (f.sub energy e))))
                          (usable es ts);
                    valid_values = 0;
                  })
                  _ _ (omega arith))
    ]
  ]

  pub rounds-regress :
      (fuel : ℕ) (p : Private D) (energy : D) (now : ℤ)
      → IsRing p
      → energy_old_length ≤ fuel
      → rounds fuel p energy now p.energy_old_first no_sums
        ≡ regress energy now (
            usable
              (rotate p.energy_old_first p.energy_old)
              (rotate p.energy_old_first p.energy_old_timespec))
  unfolding regress
  rounds-regress (suc (suc (suc (suc n)))) p energy now v h =
      let points =
        usable (rotate p.energy_old_first p.energy_old)
          (rotate p.energy_old_first p.energy_old_timespec) in
      rounds_around n p energy now no_sums v.position
      ∙ sym (added_up_around p energy now no_sums v)
      ∙ added_up-usable energy now _ _ no_sums
      ∙ with_count (regress energy now points) _ _ (omega arith)
  rounds-regress (suc (suc (suc zero))) p energy now v h = absurd (omega (arith, h))
  rounds-regress (suc (suc zero)) p energy now v h = absurd (omega (arith, h))
  rounds-regress (suc zero) p energy now v h = absurd (omega (arith, h))
  rounds-regress zero p energy now v h = absurd (omega (arith, h))

module _ {ℓ} {A : Type ℓ} where
  rotate-set_four :
      (a b c d : A) (i : ℕ) (v : A)
      → i < 4
      → let xs = a ∷ b ∷ c ∷ d ∷ [] in
        rotate (position_before i) (set xs (position_before i) v) ≡ v ∷ take 3 (rotate i xs)
  rotate-set_four a b c d zero v h = refl
  rotate-set_four a b c d (suc zero) v h = refl
  rotate-set_four a b c d (suc (suc zero)) v h = refl
  rotate-set_four a b c d (suc (suc (suc zero))) v h = refl
  rotate-set_four a b c d (suc (suc (suc (suc n)))) v h = absurd (omega (arith, h))

  rotate-set :
      (xs : List A) (i : ℕ) (v : A)
      → length xs ≡ 4
      → i < 4
      → rotate (position_before i) (set xs (position_before i) v) ≡ v ∷ take 3 (rotate i xs)
  rotate-set xs i v h b =
      let (x, y, z, w, e) = four xs h in
      subst
        (λ l. rotate (position_before i) (set l (position_before i) v) ≡ v ∷ take 3 (rotate i l))
        (sym e) (rotate-set_four x y z w i v b)

module _ {D : Type 0} ⦃f : Floating D⦄ where
  -- A new energy comes before the three youngest of the old ones, and the oldest is forgotten; an
  -- energy that did not change leaves the buffer as it is.
  push_new_energy-rotate :
      (p : Private D) (energy : D) (time : ℤ)
      → IsRing p
      → let i = p.energy_old_first in
        let (q, changed) = push_new_energy p energy time in
        let new = rotate q.energy_old_first q.energy_old in
        let times = rotate q.energy_old_first q.energy_old_timespec in
        IsRing q
        × (((changed ≡ true)
              × (new ≡ energy ∷ take 3 (rotate i p.energy_old))
              × (times ≡ time ∷ take 3 (rotate i p.energy_old_timespec)))
            ⊎ ((changed ≡ false) × (q ≡ p) × (f.eq (energy_at p i) energy ≡ true)))
  unfolding push_new_energy
  push_new_energy-rotate p energy time v = (
    push_new_energy-IsRing p energy time v,
    elim (Bool-cases (f.eq (energy_at p p.energy_old_first) energy)) [
      | inl same ↦ rw same (inr (refl, refl, refl))
      | inr new ↦ rw new (
          inl (
            refl,
            rotate-set p.energy_old p.energy_old_first energy v.energies v.position,
            rotate-set p.energy_old_timespec p.energy_old_first time v.times v.position,
          ))
    ],
  )
