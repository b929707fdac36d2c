-- ===== src/Daemon/Display/Composite.antt =====
-- What the composite battery of src/up-daemon.c is, said without the loop.
use upower.Prelude.{
  ◌+◌, ◌≡◌, refl, inl, inr, Bool-cases, ◌∙◌, sym, Bool, true, false, ◌||◌, List, [], ◌∷◌, ◌++◌, map,
  ◌≤◌, length, if◌then◌else◌, arith,
}
use upower.Floating.{Floating}
use upower.Types.{DeviceKind, DeviceState, kind_eq, state_eq}
use upower.Device.{Skeleton}
use upower.Daemon.Display.{
  Totals, join_state, is_battery, gather, add_battery, totals_of_ups, no_totals, total, weigh,
}

abbrev pub any_is : DeviceState → List DeviceState → Bool
any_is x [] = false
any_is x (s ∷ ss) = state_eq s x || any_is x ss

-- The first state of a battery that neither charges nor discharges.
abbrev pub first_idle : List DeviceState → DeviceState
first_idle [] = DeviceState.unknown
first_idle (DeviceState.pending_charge ∷ ss) = DeviceState.pending_charge
first_idle (DeviceState.fully_charged ∷ ss) = DeviceState.fully_charged
first_idle (_ ∷ ss) = first_idle ss

-- The state of the composite: charging if any battery charges, else discharging if any
-- discharges, else that of the first battery that is full or waits for its charge.
abbrev pub composite : List DeviceState → DeviceState
composite ss =
    if any_is DeviceState.charging ss
    then DeviceState.charging
    else if any_is DeviceState.discharging ss
    then DeviceState.discharging
    else first_idle ss

abbrev pub join_all : DeviceState → List DeviceState → DeviceState
join_all total [] = total
join_all total (s ∷ ss) = join_all (join_state total s) ss

abbrev IsTotal : DeviceState → Type 0
IsTotal s = composite (s ∷ []) ≡ s

join_state-IsTotal : (t s : DeviceState) → IsTotal t → IsTotal (join_state t s)
unfolding join_state
join_state-IsTotal t s h = ground arith

composite-join_state :
    (t s : DeviceState) (ss : List DeviceState)
    → IsTotal t
    → composite (join_state t s ∷ ss) ≡ composite (t ∷ s ∷ ss)
unfolding join_state
composite-join_state t s ss h = ground arith

join_all-composite :
    (t : DeviceState) (ss : List DeviceState) → IsTotal t → join_all t ss ≡ composite (t ∷ ss)
join_all-composite t [] h = sym h
join_all-composite t (s ∷ ss) h =
    join_all-composite (join_state t s) ss (join_state-IsTotal t s h)
    ∙ composite-join_state t s ss h

abbrev pub sum {ℓ} : {D : Type ℓ} → (D → D → D) → D → List D → D
sum add acc [] = acc
sum add acc (x ∷ xs) = sum add (add acc x) xs

-- The batteries that supply the system.
abbrev pub batteries : {D : Type 0} → List (Skeleton D) → List (Skeleton D)
batteries [] = []
batteries (s ∷ rest) = if is_battery s then s ∷ batteries rest else batteries rest

abbrev pub has_ups : {D : Type 0} → List (Skeleton D) → Bool
has_ups [] = false
has_ups (s ∷ rest) = kind_eq s.kind DeviceKind.ups || has_ups rest

abbrev pub states : {D : Type 0} → List (Skeleton D) → List DeviceState
states = map (λ s. s.state)

or_false : (a b : Bool) → (a || b) ≡ false → (a ≡ false) × (b ≡ false)
or_false a b h = ground arith

module _ {D : Type 0} ⦃f : Floating D⦄ where
  open f use {lit, lt, add, mul, div}

  add_all : Totals D → List (Skeleton D) → Totals D
  add_all t [] = t
  add_all t (s ∷ rest) = add_all (add_battery t s) rest

  gather-add_all :
      (t : Totals D) (ds : List (Skeleton D))
      → has_ups ds ≡ false
      → gather t ds ≡ add_all t (batteries ds)
  unfolding gather add_all
  gather-add_all t [] h = refl
  gather-add_all t (s ∷ rest) h =
      let (here, later) = or_false (kind_eq s.kind DeviceKind.ups) (has_ups rest) h in
      elim (Bool-cases (is_battery s)) [
        | inl e ↦ rw (here, e) (gather-add_all (add_battery t s) rest later)
        | inr e ↦ rw (here, e) (gather-add_all t rest later)
      ]

  add_all_parts :
      (t : Totals D) (bs : List (Skeleton D))
      → let u = add_all t bs in
        (u.state ≡ join_all t.state (states bs))
        × (u.energy ≡ sum add t.energy (map (λ s. s.energy) bs))
        × (u.energy_full ≡ sum add t.energy_full (map (λ s. s.energy_full) bs))
        × (u.energy_rate ≡ sum add t.energy_rate (map (λ s. s.energy_rate) bs))
        × (u.percentage ≡ sum add t.percentage (map (λ s. s.percentage) bs))
        × (u.num_batteries ≡ t.num_batteries + length bs)
  unfolding add_all add_battery
  add_all_parts t [] = (refl, refl, refl, refl, refl, omega arith)
  add_all_parts t (b ∷ bs) =
      let (s, e, ef, er, p, n) = add_all_parts (add_battery t b) bs in
      (s, e, ef, er, p, omega (arith, n))

  -- With no UPS among the devices, the composite has the state that `composite` gives to the
  -- batteries that supply the system, and the sums of their energies, of their full energies and
  -- of their rates, and their number. The state is charging if one charges, else discharging if one
  -- discharges, whatever the others are, else that of the first one that is full or waits for its
  -- charge, whatever the others are.
  pub total-composite :
      (ds : List (Skeleton D))
      → has_ups ds ≡ false
      → let t = total ds in
        let bs = batteries ds in
        (t.state ≡ composite (states bs))
        × (t.energy ≡ sum add (lit 0 1) (map (λ s. s.energy) bs))
        × (t.energy_full ≡ sum add (lit 0 1) (map (λ s. s.energy_full) bs))
        × (t.energy_rate ≡ sum add (lit 0 1) (map (λ s. s.energy_rate) bs))
        × (t.num_batteries ≡ length bs)
  unfolding total weigh no_totals
  total-composite ds h = ground (
    arith,
    gather-add_all no_totals ds h,
    add_all_parts no_totals (batteries ds),
    join_all-composite DeviceState.unknown (states (batteries ds)) refl,
  )

  gather-ups :
      (t : Totals D) (pre : List (Skeleton D)) (u : Skeleton D) (post : List (Skeleton D))
      → has_ups pre ≡ false
      → kind_eq u.kind DeviceKind.ups ≡ true
      → gather t (pre ++ (u ∷ post)) ≡ totals_of_ups (add_all t (batteries pre)) u
  unfolding gather add_all
  gather-ups t [] u post h e = rw e
  gather-ups t (s ∷ rest) u post h e =
      let (here, later) = or_false (kind_eq s.kind DeviceKind.ups) (has_ups rest) h in
      elim (Bool-cases (is_battery s)) [
        | inl b ↦ rw (here, b) (gather-ups (add_battery t s) rest u post later e)
        | inr b ↦ rw (here, b) (gather-ups t rest u post later e)
      ]

  -- Two batteries before the UPS are not ignored: the percentage is then worked out from the
  -- energies of the UPS, if it has a full energy, and no longer the one that the UPS reports.
  total-ups_after_batteries :
      (pre : List (Skeleton D)) (u : Skeleton D) (post : List (Skeleton D))
      → has_ups pre ≡ false
      → kind_eq u.kind DeviceKind.ups ≡ true
      → 2 ≤ length (batteries pre)
      → lt (lit 0 1) u.energy_full ≡ true
      → (total (pre ++ (u ∷ post))).percentage ≡ div (mul (lit 100 1) u.energy) u.energy_full
  unfolding total weigh totals_of_ups no_totals
  total-ups_after_batteries pre u post h e many full =
      ground (arith, gather-ups no_totals pre u post h e, add_all_parts no_totals (batteries pre))

  -- A full battery that comes first hides the batteries that wait for their charge: if no battery
  -- charges or discharges, the composite is fully charged.
  total-full_first :
      (b : Skeleton D) (ds : List (Skeleton D))
      → has_ups (b ∷ ds) ≡ false
      → is_battery b ≡ true
      → b.state ≡ DeviceState.fully_charged
      → any_is DeviceState.charging (states (batteries ds)) ≡ false
      → any_is DeviceState.discharging (states (batteries ds)) ≡ false
      → (total (b ∷ ds)).state ≡ DeviceState.fully_charged
  total-full_first b ds none batt full c d =
      (total-composite (b ∷ ds) none).0 ∙ rw (batt, full, c, d)
