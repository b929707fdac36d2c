-- ===== src/Daemon/Display/Update.antt =====
-- src/up-daemon.c: storing the composite battery, and what the daemon asks of its devices.
use upower.Prelude.{
  ℕ, ◌+◌, ◌≡◌, Bool, true, false, ◌&&◌, ◌||◌, Option, none, some, List, [], ◌∷◌, map, if◌then◌else◌,
}
use upower.Prelude.Int.{eqb_ℤ, eqb_ℤ_refl}
use upower.Floating.{Floating, IsNumber}
use upower.Types.{DeviceKind, kind_eq, state_eq, kind_eq_refl, state_eq_refl}
use upower.Device.{Skeleton, UpDevice, get_on_battery, get_online}
use upower.Device.Icon.{update_icon_name}
use upower.Device.Warning.{update_warning_level}
use upower.Daemon.{Daemon, System, devices}
use upower.Daemon.Policy.{Policy}
use upower.Daemon.Display.{Totals, total}

unfoldable pub is_yes : Option Bool → Bool
is_yes none = false
is_yes (some b) = b

or_else {ℓ} : {A : Type ℓ} → A → Option A → A
or_else a none = a
or_else a (some b) = b

module _ {D : Type 0} where
  unfoldable pub any_device : (UpDevice D → Option Bool) → List (UpDevice D) → Bool
  any_device ask [] = false
  any_device ask (d ∷ ds) = is_yes (ask d) || any_device ask ds

  unfoldable pub count_kind : DeviceKind → List (UpDevice D) → ℕ
  count_kind kind [] = 0
  count_kind kind (d ∷ ds) =
      let rest = count_kind kind ds in if kind_eq kind d.skeleton.kind then rest + 1 else rest

module _ {D L : Type 0} where
  unfoldable pub get_on_battery_local : System D L → Bool
  unfolding any_device is_yes
  get_on_battery_local s = any_device get_on_battery (devices s)

  unfoldable pub get_on_ac_local : System D L → Bool
  unfolding any_device is_yes
  get_on_ac_local s = any_device get_online (devices s)

  unfoldable pub get_number_devices_of_type : System D L → DeviceKind → ℕ
  unfolding count_kind
  get_number_devices_of_type s kind = count_kind kind (devices s)

module _ {D : Type 0} ⦃f : Floating D⦄ where
  -- "Did anything change?", answered `true` where nothing did.
  unfoldable pub unchanged : Daemon D → Totals D → Bool
  unchanged d t =
      kind_eq d.kind t.kind
      && state_eq d.state t.state
      && f.eq d.energy t.energy
      && f.eq d.energy_full t.energy_full
      && f.eq d.energy_rate t.energy_rate
      && eqb_ℤ d.time_to_empty t.time_to_empty
      && eqb_ℤ d.time_to_full t.time_to_full
      && f.eq d.percentage t.percentage

  -- `g_object_set` on the display device, with the handlers that its notifications run. The
  -- assertion behind `update_icon_name` cannot fail there (`Device.Icon`), and there is no history.
  unfoldable pub show_totals : Policy → Totals D → ℕ → Skeleton D → Skeleton D
  unfolding or_else
  show_totals p t now s =
      let shown = update_warning_level (some p) (record s {
        kind = t.kind;
        state = t.state;
        energy = t.energy;
        energy_full = t.energy_full;
        energy_rate = t.energy_rate;
        time_to_empty = t.time_to_empty;
        time_to_full = t.time_to_full;
        percentage = t.percentage;
        is_present = t.is_present;
        power_supply = true;
        update_time = now;
      }) in
      or_else shown (update_icon_name shown)

  unfoldable pub store_totals : Daemon D → Totals D → ℕ → Daemon D
  store_totals d t now = record d {
    kind = t.kind;
    state = t.state;
    energy = t.energy;
    energy_full = t.energy_full;
    energy_rate = t.energy_rate;
    time_to_empty = t.time_to_empty;
    time_to_full = t.time_to_full;
    percentage = t.percentage;
    display_device = show_totals d.policy t now d.display_device;
  }

  unchanged-store_totals :
      (d : Daemon D) (t : Totals D) (now : ℕ)
      → IsNumber t.energy
      → IsNumber t.energy_full
      → IsNumber t.energy_rate
      → IsNumber t.percentage
      → unchanged (store_totals d t now) t ≡ true
  unfolding unchanged store_totals
  unchanged-store_totals d t now e ef er p = rw (
    kind_eq_refl t.kind,
    state_eq_refl t.state,
    e,
    ef,
    er,
    eqb_ℤ_refl t.time_to_empty,
    eqb_ℤ_refl t.time_to_full,
    p,
  )

module _ {D L : Type 0} ⦃f : Floating D⦄ where
  -- The totals of the devices as they are now.
  abbrev pub current_totals : System D L → Totals D
  current_totals s = total (map (λ d. d.skeleton) (devices s))

  unfoldable pub update_display_battery : System D L → ℕ → System D L × Bool
  update_display_battery s now =
      if unchanged s.daemon (current_totals s)
      then (s, false)
      else (record s { daemon = store_totals s.daemon (current_totals s) now }, true)
