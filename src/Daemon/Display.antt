-- ===== src/Daemon/Display.antt =====
-- src/up-daemon.c, `up_daemon_update_display_battery`: the battery that stands for all of them.
pub mod Composite
pub mod Update
use upower.Prelude.{
  ℕ, ◌+◌, ◌≡◌, Bool, true, false, not, ◌&&◌, ◌||◌, some, List, [], ◌∷◌, map, leb, if◌then◌else◌,
}
use upower.Prelude.Int.{ℤ, pos, ◌+ℤ◌, eqb_ℤ}
use upower.Floating.{Floating}
use upower.Types.{DeviceKind, DeviceState, kind_eq, state_eq}
use upower.Device.{Skeleton}

-- The local variables of the function. The array has fewer than 2 ^ 32 entries, so the count of
-- batteries does not wrap.
pub record Totals (D : Type 0) : Type 0 where
  pub kind : DeviceKind
  pub state : DeviceState
  pub percentage : D
  pub energy : D
  pub energy_full : D
  pub energy_rate : D
  pub time_to_empty : ℤ
  pub time_to_full : ℤ
  pub is_present : Bool
  pub num_batteries : ℕ

-- The state of the composite after one more battery.
unfoldable pub join_state : DeviceState → DeviceState → DeviceState
join_state total state =
    if state_eq state DeviceState.charging
    then DeviceState.charging
    else if state_eq state DeviceState.discharging && not (state_eq total DeviceState.charging)
    then DeviceState.discharging
    else if state_eq state DeviceState.pending_charge
        && (state_eq total DeviceState.unknown || state_eq total DeviceState.pending_charge)
    then DeviceState.pending_charge
    else if state_eq state DeviceState.fully_charged && state_eq total DeviceState.unknown
    then DeviceState.fully_charged
    else total

-- The devices that the loop does not pass over.
abbrev pub is_battery : {D : Type 0} → Skeleton D → Bool
is_battery s = kind_eq s.kind DeviceKind.battery && s.power_supply

module _ {D : Type 0} ⦃f : Floating D⦄ where
  open f use {lit, add, sub, mul, div, lt, eq, to_int}

  unfoldable pub no_totals : Totals D
  no_totals = record {
    kind = DeviceKind.unknown;
    state = DeviceState.unknown;
    percentage = lit 0 1;
    energy = lit 0 1;
    energy_full = lit 0 1;
    energy_rate = lit 0 1;
    time_to_empty = pos 0;
    time_to_full = pos 0;
    is_present = false;
    num_batteries = 0;
  }

  -- A UPS takes the place of what was gathered so far, except for the count.
  unfoldable pub totals_of_ups : Totals D → Skeleton D → Totals D
  totals_of_ups t s = record {
    kind = s.kind;
    state = s.state;
    percentage = s.percentage;
    energy = s.energy;
    energy_full = s.energy_full;
    energy_rate = s.energy_rate;
    time_to_empty = s.time_to_empty;
    time_to_full = s.time_to_full;
    is_present = true;
    num_batteries = t.num_batteries;
  }

  unfoldable pub add_battery : Totals D → Skeleton D → Totals D
  add_battery t s = record {
    kind = DeviceKind.battery;
    state = join_state t.state s.state;
    percentage = add t.percentage s.percentage;
    energy = add t.energy s.energy;
    energy_full = add t.energy_full s.energy_full;
    energy_rate = add t.energy_rate s.energy_rate;
    time_to_empty = t.time_to_empty +ℤ s.time_to_empty;
    time_to_full = t.time_to_full +ℤ s.time_to_full;
    is_present = true;
    num_batteries = t.num_batteries + 1;
  }

  -- The loop over the devices, which ends at the first UPS.
  unfoldable pub gather : Totals D → List (Skeleton D) → Totals D
  gather t [] = t
  gather t (s ∷ rest) =
      let next = gather (if is_battery s then add_battery t s else t) rest in
      if kind_eq s.kind DeviceKind.ups then totals_of_ups t s else next

  -- Several batteries: a weighted percentage, and a time for the whole.
  unfoldable pub weigh : Totals D → Totals D
  weigh t =
      let percentage =
        if lt (lit 0 1) t.energy_full
        then div (mul (lit 100 1) t.energy) t.energy_full
        else t.percentage in
      let running = lt (lit 0 1) t.energy_rate in
      record t {
        percentage = percentage;
        time_to_empty =
            if running && state_eq t.state DeviceState.discharging
            then to_int (mul (lit 3600 1) (div t.energy t.energy_rate))
            else t.time_to_empty;
        time_to_full =
            if running && state_eq t.state DeviceState.charging
            then to_int (mul (lit 3600 1) (div (sub t.energy_full t.energy) t.energy_rate))
            else t.time_to_full;
      }

  unfoldable pub total : List (Skeleton D) → Totals D
  total devices = let t = gather no_totals devices in if leb t.num_batteries 1 then t else weigh t
