-- ===== src/Supply/Rate.antt =====
-- src/linux/up-device-supply.c: the last energies, in a circular buffer, and the rate that they give.
pub mod Ring
use upower.Prelude.{
  ℕ, zero, suc, ◌+◌, ◌-◌, ◌%◌, ◌^◌, Bool, true, false, not, ◌&&◌, ◌||◌, ltb, ◌==◌, get_or, set,
  if◌then◌else◌,
}
use upower.Prelude.Int.{ℤ, pos, ◌-ℤ◌, ◌*ℤ◌, eqb_ℤ}
use upower.Floating.{Floating, fabs}
use upower.Supply.{Private, energy_old_length}

-- The position before `first`, in `guint` arithmetic.
abbrev pub position_before : ℕ → ℕ
position_before first = (first + energy_old_length - 1) % 2 ^ 32 % energy_old_length

module _ {D : Type 0} ⦃f : Floating D⦄ where
  abbrev pub energy_at : Private D → ℕ → D
  energy_at p i = get_or p.energy_old i (f.lit 0 1)

  abbrev pub time_at : Private D → ℕ → ℤ
  time_at p i = get_or p.energy_old_timespec i (pos 0)

  -- An energy that differs from the last one is stored in front of it.
  unfoldable pub push_new_energy : Private D → D → ℤ → Private D × Bool
  push_new_energy p energy time =
      let first = p.energy_old_first in
      let new_position = position_before first in
      if not (f.eq (energy_at p first) energy)
      then (
        record p {
          energy_old = set p.energy_old new_position energy;
          energy_old_timespec = set p.energy_old_timespec new_position time;
          energy_old_first = new_position;
        },
        true,
      )
      else (p, false)

-- The sums of the regression.
pub record Sums (D : Type 0) : Type 0 where
  pub sum_x : D
  pub rate : D
  pub valid_values : ℕ

module _ {D : Type 0} ⦃f : Floating D⦄ where
  abbrev pub no_sums : Sums D
  no_sums = record { sum_x = f.litf 0 1; rate = f.litf 0 1; valid_values = 0 }

  -- What one point of the buffer adds, if it has a time and an energy.
  unfoldable pub add_point : D → ℤ → ℤ → D → Sums D → Sums D
  add_point energy now time old sums =
      if not (eqb_ℤ time (pos 0)) && not (f.eq old (f.lit 0 1))
      then record {
        sum_x = f.add sums.sum_x (f.of_int ((now -ℤ time) *ℤ (now -ℤ time)));
        rate = f.add sums.rate (fabs (f.mul (f.of_int (time -ℤ now)) (f.sub energy old)));
        valid_values = sums.valid_values + 1;
      }
      else sums

  -- The `do` loop around the buffer, on fuel.
  unfoldable pub rounds : ℕ → Private D → D → ℤ → ℕ → Sums D → Sums D
  rounds zero p energy now i sums = sums
  rounds (suc fuel) p energy now i sums =
      let added = add_point energy now (time_at p i) (energy_at p i) sums in
      let next = (i + 1) % energy_old_length in
      let rest = rounds fuel p energy now next added in
      if not (next == p.energy_old_first) then rest else added

  -- The rate in each hour; the old rate where the sums do not give one.
  unfoldable pub rate_of : D → Sums D → D
  rate_of rate_old sums =
      let rate = f.div sums.rate (f.div sums.sum_x (f.litf 3600 1)) in
      if f.eq sums.sum_x (f.litf 0 1) || ltb sums.valid_values 3
      then rate_old
      else if f.eq rate (f.litf 0 1) || f.lt (f.litf 100 1) rate
      then rate_old
      else rate

  unfoldable pub calculate_rate : Private D → D → ℤ → Private D × D
  calculate_rate p energy time =
      let q = (push_new_energy p energy time).0 in
      let first = q.energy_old_first in
      let sums = rounds energy_old_length q energy (time_at q first) first no_sums in
      if f.lt energy (f.litf 1 10)
      then (q, f.litf 0 1)
      else if f.lt (energy_at q first) (f.litf 1 10)
      then (q, f.litf 0 1)
      else (q, rate_of q.rate_old sums)
