-- ===== src/Supply/Battery/Bounds.antt =====
-- src/linux/up-device-supply.c: the bounds of what a battery reports.
use upower.Prelude.{
  ℕ, ◌≡◌, refl, sym, subst, ◌⊎◌, inl, inr, true, false, not, Bool-cases, if_both, arith,
}
use upower.Prelude.Int.{ℤ, pos, ltb_ℤ}
use upower.Prelude.Text.{Text}
use upower.Floating.{Floating, IsLiteral, clamp}
use upower.Storage.{Files}
use upower.MainLoop.{MainLoop}
use upower.Types.{DeviceState, state_eq}
use upower.Device.{Skeleton}
use upower.Supply.{Supply, Surroundings, AsciiText}
use upower.Supply.Sysfs.{AsciiDouble}
use upower.Supply.Poll.{setup_unknown_poll}
use upower.Supply.Battery.{
  is_there, set_present, refresh_battery, refresh_present, reset_values, measure, remember, store,
}
use upower.Supply.Attributes.{get_micro}
use upower.Supply.Battery.Initial.{InitialValues, initial}
use upower.Supply.Battery.Energy.{precise_percentage, get_percentage}
use upower.Supply.Battery.Guess.{get_times, time_left, max_time_to_empty, max_time_to_full, limited}

-- Between 0 and 100, or no number.
abbrev pub IsPercentage : {D : Type 0} ⦃f : Floating D⦄ → D → Type 0
IsPercentage ⦃f⦄ x = (f.lt (f.lit 100 1) x ≡ false) × (f.lt x (f.lit 0 1) ≡ false)

-- A time that is within its limit, and 0 unless the state is the one that it is for.
abbrev IsTime : ℕ → DeviceState → DeviceState → ℤ → Type 0
IsTime limit wanted state time =
    (ltb_ℤ (pos limit) time ≡ false) × ((time ≡ pos 0) ⊎ (state_eq state wanted ≡ true))

-- What a client may rely on.
pub record IsBounded {D : Type 0} ⦃f : Floating D⦄ (s : Skeleton D) : Type 0 where
  pub percentage : IsPercentage s.percentage
  pub time_to_empty : IsTime max_time_to_empty DeviceState.discharging s.state s.time_to_empty
  pub time_to_full : IsTime max_time_to_full DeviceState.charging s.state s.time_to_full

module _ {D : Type 0} ⦃f : Floating D⦄ (laws : IsLiteral D) where
  zero-IsPercentage : IsPercentage (f.litf 0 1)
  zero-IsPercentage =
      rw (laws.litf_exact 0 (omega arith))
        (laws.lit-mono 0 100 (omega arith), laws.lit-mono 0 0 (omega arith))

  clamp-IsPercentage : (x : D) → IsPercentage (clamp x (f.litf 0 1) (f.litf 100 1))
  clamp-IsPercentage x =
      rw (laws.litf_exact 0 (omega arith), laws.litf_exact 100 (omega arith))
        (elim (Bool-cases (f.lt (f.lit 100 1) x)) [
          | inl above ↦
              rw above (laws.lit-mono 100 100 (omega arith), laws.lit-mono 0 100 (omega arith))
          | inr within ↦ elim (Bool-cases (f.lt x (f.lit 0 1))) [
            | inl below ↦
                rw (within, below)
                  (laws.lit-mono 0 100 (omega arith), laws.lit-mono 0 0 (omega arith))
            | inr above ↦ rw (within, above) (within, above)
          ]
        ])

limited_bound : (limit : ℕ) (time : ℤ) → ltb_ℤ (pos limit) (limited limit time) ≡ false
limited_bound limit time = ground arith

limited-IsTime :
    (limit : ℕ) (wanted state : DeviceState) (time : ℤ)
    → (time ≡ pos 0) ⊎ (state_eq state wanted ≡ true)
    → IsTime limit wanted state (limited limit time)
limited-IsTime limit wanted state time (inl zero) =
    (limited_bound limit time, inl (rw zero (ground arith)))
limited-IsTime limit wanted state time (inr same) = (limited_bound limit time, inr same)

module _ {D S : Type 0} ⦃f : Floating D⦄ ⦃fs : Files S⦄ where
  -- The times are for the states that they are identified after.
  time_left_lem :
      (disk : S) (path : Text) (state : DeviceState) (energy energy_full energy_rate : D)
      → let (empty, full) = time_left disk path state energy energy_full energy_rate in
        ((empty ≡ pos 0) ⊎ (state_eq state DeviceState.discharging ≡ true))
        × ((full ≡ pos 0) ⊎ (state_eq state DeviceState.charging ≡ true))
  time_left_lem disk path state energy energy_full energy_rate = ground arith

  get_times-IsTime :
      (disk : S) (path : Text) (state : DeviceState) (energy energy_full energy_rate : D)
      → let (empty, full) = get_times disk path state energy energy_full energy_rate in
        IsTime max_time_to_empty DeviceState.discharging state empty
        × IsTime max_time_to_full DeviceState.charging state full
  unfolding get_times
  get_times-IsTime disk path state energy energy_full energy_rate =
      let (empty, full) = time_left_lem disk path state energy energy_full energy_rate in
      (
        limited-IsTime max_time_to_empty DeviceState.discharging state _ empty,
        limited-IsTime max_time_to_full DeviceState.charging state _ full,
      )

module _ {D S : Type 0} ⦃f : Floating D⦄ ⦃n : AsciiDouble D⦄ ⦃fs : Files S⦄
    (laws : IsLiteral D) where
  precise_percentage-IsPercentage :
      (disk : S) (path : Text) (precise energy energy_full : D)
      → IsPercentage (precise_percentage disk path precise energy energy_full).0
  unfolding precise_percentage
  precise_percentage-IsPercentage disk path precise energy energy_full = ground (
    arith,
    clamp-IsPercentage laws precise,
    clamp-IsPercentage laws (f.div (f.mul (f.lit 100 1) energy) energy_full),
    zero-IsPercentage laws,
  )

module _ {D S : Type 0} ⦃f : Floating D⦄ ⦃n : AsciiDouble D⦄ ⦃a : AsciiText⦄ ⦃fs : Files S⦄
    (laws : IsLiteral D) where
  measured-IsBounded :
      (env : Surroundings D S) (path : Text) (charge_full : D) (i : InitialValues D)
      → IsBounded (store (measure env path charge_full i).1 i.skeleton)
  unfolding measure store get_percentage
  measured-IsBounded env path charge_full i =
      let (empty, full) = get_times-IsTime env.disk path _ _ _ _ in
      record {
        percentage = precise_percentage-IsPercentage laws env.disk path _ _ _;
        time_to_empty = empty;
        time_to_full = full;
      }

module _ {D L G : Type 0} ⦃f : Floating D⦄ (laws : IsLiteral D) where
  absent-IsBounded : (s : Supply D L G) → IsBounded (reset_values s).skeleton
  unfolding reset_values
  absent-IsBounded s = record {
    percentage = (laws.lit-mono 0 100 (omega arith), laws.lit-mono 0 0 (omega arith));
    time_to_empty = (refl, inl refl);
    time_to_full = (refl, inl refl);
  }

module _ {D S L G : Type 0} ⦃f : Floating D⦄ ⦃n : AsciiDouble D⦄ ⦃a : AsciiText⦄ ⦃fs : Files S⦄
    ⦃m : MainLoop L⦄ where
  pub skeleton-setup :
      (env : Surroundings D S) (s : Supply D L G) (state : DeviceState)
      → (setup_unknown_poll env s state).skeleton ≡ s.skeleton
  unfolding setup_unknown_poll
  skeleton-setup env s state = ground arith

  module _ (laws : IsLiteral D) where
    present-IsBounded :
        (env : Surroundings D S) (path : Text) (s : Supply D L G)
        → IsBounded (refresh_present env path s).skeleton
    unfolding refresh_present
    present-IsBounded env path s =
        let charge_full = get_micro env.disk path "charge_full" in
        let i = initial env.disk path charge_full s.priv s.skeleton in
        let (p, r) = measure env path charge_full i in
        let kept = remember i.skeleton.state r env.push_time p in
        let stored : Supply D L G = record s { priv = kept; skeleton = store r i.skeleton } in
        subst IsBounded (sym (skeleton-setup env stored r.state))
          (measured-IsBounded laws env path charge_full i)

    -- Whatever the kernel reports of a battery, its percentage is not under 0 and not over 100, it
    -- has a time to empty only while it discharges, of ten days at most, and a time to full only
    -- while it charges, of 20 hours at most.
    pub refresh_battery-IsBounded :
        (env : Surroundings D S) (path : Text) (s : Supply D L G)
        → IsBounded (refresh_battery env path s).skeleton
    unfolding refresh_battery
    refresh_battery-IsBounded env path s =
        if_both (λ (t : Supply D L G). IsBounded t.skeleton) (not (is_there env.disk path))
          {x = reset_values (set_present s false)}
          {y = refresh_present env path (set_present s true)}
          (absent-IsBounded laws (set_present s false))
          (present-IsBounded env path (set_present s true))
