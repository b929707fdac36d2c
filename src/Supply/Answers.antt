-- ===== src/Supply/Answers.antt =====
-- src/linux/up-device-supply.c: what the devices answer when the daemon asks for the power source.
use upower.Prelude.{◌≡◌, refl, Bool, false, ◌&&◌, ◌||◌, List, [], ◌∷◌, Option, All, arith}
use upower.Types.{DeviceKind, DeviceState, kind_eq, state_eq}
use upower.Device.{Skeleton, UpDevice, call_method, get_on_battery, get_online}
use upower.Daemon.{System, devices}
use upower.Daemon.Display.Update.{get_on_battery_local, get_on_ac_local, any_device, is_yes}
use upower.Supply.Refresh
use upower.Supply.Refresh.{supply_class}

module _ {D : Type 0} where
  abbrev pub any : (Skeleton D → Bool) → List (UpDevice D) → Bool
  any test [] = false
  any test (d ∷ ds) = test d.skeleton || any test ds

  -- A battery that is there, that supplies the system and that discharges.
  abbrev pub is_discharging : Skeleton D → Bool
  is_discharging s =
      s.power_supply
      && (kind_eq s.kind DeviceKind.battery
          && (s.is_present && state_eq s.state DeviceState.discharging))

  -- A power line that is online.
  abbrev pub is_online : Skeleton D → Bool
  is_online s = kind_eq s.kind DeviceKind.line_power && s.online

  -- Devices that this file's class made.
  abbrev pub AreSupplies : List (UpDevice D) → Type 0
  AreSupplies = All (λ (d : UpDevice D). d.klass ≡ supply_class)

  answer_battery :
      (d : UpDevice D)
      → d.klass ≡ supply_class
      → is_yes (get_on_battery d) ≡ is_discharging d.skeleton
  unfolding get_on_battery call_method Refresh.get_on_battery is_yes
  answer_battery d h = rw h (ground arith)

  answer_online :
      (d : UpDevice D) → d.klass ≡ supply_class → is_yes (get_online d) ≡ is_online d.skeleton
  unfolding get_online call_method Refresh.get_online is_yes
  answer_online d h = rw h (ground arith)

  any_answer :
      (ask : UpDevice D → Option Bool) (test : Skeleton D → Bool)
      → ((d : UpDevice D) → d.klass ≡ supply_class → is_yes (ask d) ≡ test d.skeleton)
      → (ds : List (UpDevice D)) → AreSupplies ds
      → any_device ask ds ≡ any test ds
  unfolding any_device
  any_answer ask test h [] supplies = refl
  any_answer ask test h (d ∷ ds) (supply, supplies) =
      rw (h d supply, any_answer ask test h ds supplies) refl

module _ {D L : Type 0} where
  -- With devices of this class, the daemon is on battery if one of them is a battery that is there,
  -- supplies the system and discharges, and is on AC if one of them is a power line that is online.
  answers-supplies :
      (s : System D L)
      → AreSupplies (devices s)
      → (get_on_battery_local s ≡ any is_discharging (devices s))
        × (get_on_ac_local s ≡ any is_online (devices s))
  unfolding get_on_battery_local get_on_ac_local
  answers-supplies s h = (
    any_answer get_on_battery is_discharging answer_battery (devices s) h,
    any_answer get_online is_online answer_online (devices s) h,
  )
