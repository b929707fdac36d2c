-- ===== src/Device/Icon.antt =====
-- src/up-device.c, `get_device_charge_icon` and `update_icon_name`.
use upower.Prelude.{
  ◌≡◌, refl, ◌≢◌, inl, inr, Bool-cases, Bool, true, false, not, Option, none, some, String,
  if◌then◌else◌,
}
use upower.Floating.{Floating}
use upower.Types.{DeviceKind, DeviceState, DeviceLevel, kind_eq}
use upower.Device.{Skeleton}

module _ {D : Type 0} ⦃f : Floating D⦄ where
  open f use {lit, lt}

  icon_by_percentage : D → Bool → String
  icon_by_percentage percentage charging =
      if lt percentage (lit 10 1)
      then (if charging then "battery-caution-charging-symbolic" else "battery-caution-symbolic")
      else if lt percentage (lit 30 1)
      then (if charging then "battery-low-charging-symbolic" else "battery-low-symbolic")
      else if lt percentage (lit 60 1)
      then (if charging then "battery-good-charging-symbolic" else "battery-good-symbolic")
      else if charging
      then "battery-full-charging-symbolic"
      else "battery-full-symbolic"

  -- `none` stands for the assertion that stops the daemon.
  unfoldable pub get_device_charge_icon : D → DeviceLevel → Bool → Option String
  unfolding icon_by_percentage
  get_device_charge_icon percentage DeviceLevel.none charging =
      some (icon_by_percentage percentage charging)
  get_device_charge_icon percentage DeviceLevel.unknown charging =
      some (if charging then "battery-good-charging-symbolic" else "battery-caution-symbolic")
  get_device_charge_icon percentage DeviceLevel.low charging =
      some (if charging then "battery-caution-charging-symbolic" else "battery-caution-symbolic")
  get_device_charge_icon percentage DeviceLevel.critical charging =
      some (if charging then "battery-caution-charging-symbolic" else "battery-caution-symbolic")
  get_device_charge_icon percentage DeviceLevel.normal charging =
      some (if charging then "battery-low-charging-symbolic" else "battery-low-symbolic")
  get_device_charge_icon percentage DeviceLevel.high charging =
      some (if charging then "battery-good-charging-symbolic" else "battery-good-symbolic")
  get_device_charge_icon percentage DeviceLevel.full charging =
      some (if charging then "battery-full-charging-symbolic" else "battery-full-symbolic")
  get_device_charge_icon percentage _ charging = none

  unfoldable pub icon_of_state : DeviceState → D → DeviceLevel → Option String
  icon_of_state DeviceState.empty percentage level = some "battery-empty-symbolic"
  icon_of_state DeviceState.fully_charged percentage level = some "battery-full-charged-symbolic"
  icon_of_state DeviceState.charging percentage level = get_device_charge_icon percentage level true
  icon_of_state DeviceState.pending_charge percentage level =
      get_device_charge_icon percentage level true
  icon_of_state DeviceState.discharging percentage level =
      get_device_charge_icon percentage level false
  icon_of_state DeviceState.pending_discharge percentage level =
      get_device_charge_icon percentage level false
  icon_of_state _ percentage level = some "battery-missing-symbolic"

  -- The name that `update_icon_name` chooses.
  choose_icon_name : Skeleton D → Option String
  choose_icon_name s =
      if kind_eq s.kind DeviceKind.line_power
      then some "ac-adapter-symbolic"
      else if not s.is_present
      then some "battery-missing-symbolic"
      else icon_of_state s.state s.percentage s.battery_level

  set_icon_name : Skeleton D → Option String → Option (Skeleton D)
  set_icon_name s none = none
  set_icon_name s (some name) = some (record s { icon_name = some name })

  unfoldable pub update_icon_name : Skeleton D → Option (Skeleton D)
  unfolding choose_icon_name set_icon_name
  update_icon_name s = set_icon_name s (choose_icon_name s)

  get_device_charge_icon_total :
      (x : D) (l : DeviceLevel) (charging : Bool)
      → l ≢ DeviceLevel.discharging
      → l ≢ DeviceLevel.action
      → l ≢ DeviceLevel.last
      → (name : String) × (get_device_charge_icon x l charging ≡ some name)
  unfolding get_device_charge_icon
  get_device_charge_icon_total x DeviceLevel.discharging c d a l = absurd (d refl)
  get_device_charge_icon_total x DeviceLevel.action c d a l = absurd (a refl)
  get_device_charge_icon_total x DeviceLevel.last c d a l = absurd (l refl)
  get_device_charge_icon_total x _ c d a l = (_, refl)

  icon_of_state_total :
      (state : DeviceState) (x : D) (l : DeviceLevel)
      → l ≢ DeviceLevel.discharging
      → l ≢ DeviceLevel.action
      → l ≢ DeviceLevel.last
      → (name : String) × (icon_of_state state x l ≡ some name)
  unfolding icon_of_state
  icon_of_state_total DeviceState.charging x v d a l = get_device_charge_icon_total x v true d a l
  icon_of_state_total DeviceState.pending_charge x v d a l =
      get_device_charge_icon_total x v true d a l
  icon_of_state_total DeviceState.discharging x v d a l =
      get_device_charge_icon_total x v false d a l
  icon_of_state_total DeviceState.pending_discharge x v d a l =
      get_device_charge_icon_total x v false d a l
  icon_of_state_total _ x v d a l = (_, refl)

  -- The icon of a device never stops the daemon, if its battery level is one of those that the
  -- documentation of `UpDeviceLevel` allows for it.
  pub update_icon_name_total :
      (s : Skeleton D)
      → s.battery_level ≢ DeviceLevel.discharging
      → s.battery_level ≢ DeviceLevel.action
      → s.battery_level ≢ DeviceLevel.last
      → (name : String) × (update_icon_name s ≡ some (record s { icon_name = some name }))
  unfolding update_icon_name
  update_icon_name_total s d a l =
      let (name, e) = icon_of_state_total s.state s.percentage s.battery_level d a l in
      elim (Bool-cases (kind_eq s.kind DeviceKind.line_power)) [
        | inl line ↦ ("ac-adapter-symbolic", rw line)
        | inr other ↦ elim (Bool-cases s.is_present) [
          | inl here ↦ (name, rw other (rw here (rw e)))
          | inr gone ↦ ("battery-missing-symbolic", rw other (rw gone))
        ]
      ]
