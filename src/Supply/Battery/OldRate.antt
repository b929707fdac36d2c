-- ===== src/Supply/Battery/OldRate.antt =====
-- src/linux/up-device-supply.c: the rate of a battery, and the rate that it remembers.
use upower.Prelude.{
  ◌≡◌, refl, ◌∙◌, inl, inr, true, false, not, Bool-cases, if_both, get_or-set, arith,
}
use upower.Prelude.Int.{ℤ}
use upower.Prelude.Text.{Text}
use upower.Floating.{Floating, IsLiteral, IsNumber}
use upower.Storage.{Files}
use upower.MainLoop.{MainLoop}
use upower.Types.{DeviceState}
use upower.Device.{Skeleton}
use upower.Supply.{energy_old_length, Private, Supply, Surroundings, AsciiText}
use upower.Supply.Sysfs.{AsciiDouble}
use upower.Supply.Rate.{
  Sums, push_new_energy, calculate_rate, rate_of, rounds, time_at, position_before, energy_at,
  no_sums,
}
use upower.Supply.Rate.Ring.{IsRing}
use upower.Supply.Poll.{setup_unknown_poll}
use upower.Supply.Battery.{
  Reading, is_there, set_present, refresh_battery, refresh_present, reset_values, measure, remember,
  store, choose_rate,
}
use upower.Supply.Attributes.{get_micro}
use upower.Supply.Battery.Initial.{InitialValues, initial, initial_values}
use upower.Supply.Battery.Energy.{sane_rate}
use upower.Supply.Battery.Bounds.{skeleton-setup}

-- A rate that is not over 100 W.
abbrev pub IsPlausible : {D : Type 0} ⦃f : Floating D⦄ → D → Type 0
IsPlausible ⦃f⦄ x = f.lt (f.lit 100 1) x ≡ false

module _ {D : Type 0} ⦃f : Floating D⦄ where
  rate_old-push :
      (p : Private D) (energy : D) (time : ℤ)
      → (push_new_energy p energy time).0.rate_old ≡ p.rate_old
  unfolding push_new_energy
  rate_old-push p energy time = ground arith

  rate_old-choose :
      (p : Private D) (reported energy : D) (time : ℤ)
      → (choose_rate p reported energy time).0.rate_old ≡ p.rate_old
  unfolding choose_rate calculate_rate
  rate_old-choose p reported energy time = ground (arith, rate_old-push p energy time)

  module _ (laws : IsLiteral D) where
    rate_of-IsPlausible :
        (old : D) (sums : Sums D) → IsPlausible old → IsPlausible (rate_of old sums)
    unfolding rate_of
    rate_of-IsPlausible old sums h = ground (arith, h, laws.litf_exact 100 (omega arith))

    sane_rate-IsPlausible : (rate : D) → IsPlausible (sane_rate rate)
    unfolding sane_rate
    sane_rate-IsPlausible rate = ground (arith, laws.lit-mono 0 100 (omega arith))

    choose_rate-IsPlausible :
        (p : Private D) (reported energy : D) (time : ℤ)
        → IsPlausible p.rate_old
        → IsPlausible (choose_rate p reported energy time).1
    unfolding choose_rate calculate_rate
    choose_rate-IsPlausible p reported energy time h =
        let q = (push_new_energy p energy time).0 in
        let old : IsPlausible q.rate_old = rw (rate_old-push p energy time) h in
        let first = q.energy_old_first in
        let sums = rounds energy_old_length q energy (time_at q first) first no_sums in
        ground (
          arith,
          sane_rate-IsPlausible reported,
          laws.litf_exact 0 (omega arith),
          laws.lit-mono 0 100 (omega arith),
          rate_of-IsPlausible q.rate_old sums old,
        )

    -- What the refresh remembers and exports, from a plausible rate.
    remember-IsPlausible :
        (old : DeviceState) (r : Reading D) (time : ℤ) (p : Private D)
        → IsPlausible p.rate_old
        → IsPlausible r.energy_rate
        → IsPlausible (remember old r time p).rate_old
    unfolding remember
    remember-IsPlausible old r time p h k = ground (arith, h, k, rate_old-push p r.energy time)

module _ {D L G : Type 0} ⦃m : MainLoop L⦄ where
  rate_old-setup :
      {S : Type 0} (env : Surroundings D S) (s : Supply D L G) (state : DeviceState)
      → (setup_unknown_poll env s state).priv.rate_old ≡ s.priv.rate_old
  unfolding setup_unknown_poll
  rate_old-setup env s state = ground arith

module _ {D S : Type 0} ⦃f : Floating D⦄ ⦃n : AsciiDouble D⦄ ⦃a : AsciiText⦄ ⦃fs : Files S⦄ where
  rate_old-initial :
      (disk : S) (path : Text) (charge_full : D) (p : Private D) (s : Skeleton D)
      → (initial disk path charge_full p s).priv.rate_old ≡ p.rate_old
  unfolding initial initial_values
  rate_old-initial disk path charge_full p s = ground arith

  measure-IsPlausible :
      (laws : IsLiteral D) (env : Surroundings D S) (path : Text) (charge_full : D)
      (i : InitialValues D)
      → IsPlausible i.priv.rate_old
      → let (p, r) = measure env path charge_full i in
        IsPlausible p.rate_old × IsPlausible r.energy_rate
  unfolding measure
  measure-IsPlausible laws env path charge_full i h =
      let zero : IsPlausible (f.litf 0 1) =
        rw (laws.litf_exact 0 (omega arith)) (laws.lit-mono 0 100 (omega arith)) in
      (
        rw (rate_old-choose i.priv _ _ env.rate_time) h,
        if_both (IsPlausible {D = D}) _ zero
            (choose_rate-IsPlausible laws i.priv _ _ env.rate_time h),
      )

module _ {D L G : Type 0} ⦃f : Floating D⦄ where
  -- The rate that a battery shows and the one that it remembers.
  abbrev pub ArePlausible : Supply D L G → Type 0
  ArePlausible s = IsPlausible s.skeleton.energy_rate × IsPlausible s.priv.rate_old

module _ {D S L G : Type 0} ⦃f : Floating D⦄ ⦃n : AsciiDouble D⦄ ⦃a : AsciiText⦄ ⦃fs : Files S⦄
    ⦃m : MainLoop L⦄ (laws : IsLiteral D) where
  present-ArePlausible :
      (env : Surroundings D S) (path : Text) (s : Supply D L G)
      → IsPlausible s.priv.rate_old
      → ArePlausible (refresh_present env path s)
  unfolding refresh_present store
  present-ArePlausible env path s h =
      let charge_full = get_micro env.disk path "charge_full" in
      let i = initial env.disk path charge_full s.priv s.skeleton in
      let (p, r) = measure env path charge_full i in
      let kept = remember i.skeleton.state r env.push_time p in
      let stored : Supply D L G = record s { priv = kept; skeleton = store r i.skeleton } in
      let started : IsPlausible i.priv.rate_old =
        rw (rate_old-initial env.disk path charge_full s.priv s.skeleton) h in
      let (old, new) = measure-IsPlausible laws env path charge_full i started in
      (
        rw (skeleton-setup env stored r.state) new,
        rw (rate_old-setup env stored r.state)
            (remember-IsPlausible laws i.skeleton.state r env.push_time p old new),
      )

  -- A battery never shows a rate over 100 W, nor remembers one, if it does not remember one already.
  refresh_battery-ArePlausible :
      (env : Surroundings D S) (path : Text) (s : Supply D L G)
      → IsPlausible s.priv.rate_old
      → ArePlausible (refresh_battery env path s)
  unfolding refresh_battery reset_values
  refresh_battery-ArePlausible env path s h =
      if_both ArePlausible (not (is_there env.disk path)) {x = reset_values (set_present s false)}
        {y = refresh_present env path (set_present s true)}
        (laws.lit-mono 0 100 (omega arith), laws.lit-mono 0 100 (omega arith))
        (present-ArePlausible env path (set_present s true) h)

module _ {D : Type 0} ⦃f : Floating D⦄ where
  energy-push :
      (p : Private D) (energy : D) (time : ℤ)
      → IsRing p
      → IsNumber energy
      → let q = (push_new_energy p energy time).0 in
        f.eq (energy_at q q.energy_old_first) energy ≡ true
  unfolding push_new_energy
  energy-push p energy time v number =
      let new = position_before p.energy_old_first in
      elim (Bool-cases (f.eq (energy_at p p.energy_old_first) energy)) [
        | inl same ↦ rw (same, same) refl
        | inr other ↦
            rw (other, get_or-set p.energy_old new energy (f.lit 0 1) (omega (arith, v.energies)))
              number
      ]

  priv-choose :
      (p : Private D) (reported energy : D) (time : ℤ)
      → f.lt (sane_rate reported) (f.lit 1 100) ≡ true
      → (choose_rate p reported energy time).0 ≡ (push_new_energy p energy time).0
  unfolding choose_rate calculate_rate
  priv-choose p reported energy time silent = ground (arith, silent)

  rate_old-remember :
      (old : DeviceState) (q : Private D) (r : Reading D) (later : ℤ)
      → f.eq (energy_at q q.energy_old_first) r.energy ≡ true
      → (remember old r later q).rate_old ≡ q.rate_old
  unfolding remember push_new_energy
  rate_old-remember old q r later same = ground (arith, same)

  -- For one energy, a rate that was calculated is not remembered: the calculation has stored the
  -- energy already, so storing it again finds it unchanged.
  rate_old-calculated :
      (old : DeviceState) (p : Private D) (reported : D) (r : Reading D) (time later : ℤ)
      → IsRing p
      → IsNumber r.energy
      → f.lt (sane_rate reported) (f.lit 1 100) ≡ true
      → (remember old r later (choose_rate p reported r.energy time).0).rate_old ≡ p.rate_old
  rate_old-calculated old p reported r time later v number silent =
      let q = (push_new_energy p r.energy time).0 in
      rw (priv-choose p reported r.energy time silent) (
        rate_old-remember old q r later (energy-push p r.energy time v number)
        ∙ rate_old-push p r.energy time)
