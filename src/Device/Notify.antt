-- ===== src/Device/Notify.antt =====
-- src/up-device.c: what a change of a property leads to, and the points that it adds to the history.
use upower.Prelude.{◌⊎◌, inl, inr, ℕ, ◌≡◌, refl, ap, sym, ◌∙◌, ◌≢◌, Option, none, some, String}
use upower.Floating.{Floating}
use upower.Storage.{FloatText, Files}
use upower.MainLoop.{MainLoop}
use upower.Types.{DeviceLevel}
use upower.Daemon.Policy.{Policy}
use upower.Device.{Skeleton}
use upower.Device.Warning.{update_warning_level}
use upower.Device.Icon.{update_icon_name, update_icon_name_total}
use upower.History.Recorder.{Recorder}
use upower.History.Recorder.Points.{
  set_state, set_charge_data, set_rate_data, set_time_full_data, set_time_empty_data,
}

-- The properties that have a handler, and all others.
pub data Property : Type 0 where
  type : Property
  is_present : Property
  power_supply : Property
  time_to_empty : Property
  state : Property
  percentage : Property
  battery_level : Property
  update_time : Property
  other : Property

module _ {D : Type 0} ⦃f : Floating D⦄ where
  warned_battery_level :
      (p : Option Policy) (s : Skeleton D)
      → (update_warning_level p s).battery_level ≡ s.battery_level
  unfolding update_warning_level
  warned_battery_level none s = refl
  warned_battery_level (some p) s = refl

module _ {D L S : Type 0} ⦃f : Floating D⦄ ⦃x : FloatText D⦄ ⦃fs : Files S⦄ ⦃m : MainLoop L⦄ where
  unfoldable pub update_history : Skeleton D → Recorder D L S → ℕ → Recorder D L S
  update_history s r now =
      let stated = (set_state r s.state).0 in
      let charged = (set_charge_data stated s.percentage now).0 in
      let rated = (set_rate_data charged s.energy_rate now).0 in
      let full = (set_time_full_data rated s.time_to_full now).0 in
      (set_time_empty_data full s.time_to_empty now).0

  abbrev pub iconed : Recorder D L S → Option (Skeleton D) → Option (Skeleton D × Recorder D L S)
  iconed r none = none
  iconed r (some s) = some (s, r)

  abbrev pub with_icon : Skeleton D → Recorder D L S → Option (Skeleton D × Recorder D L S)
  with_icon s r = iconed r (update_icon_name s)

  -- `none` stands for the assertion of the icon. The policy is `none` before the device has its
  -- daemon.
  unfoldable pub notify :
      Option Policy
      → Property
      → Skeleton D
      → Recorder D L S
      → ℕ
      → Option (Skeleton D × Recorder D L S)
  notify p Property.type s r now = with_icon s r
  notify p Property.is_present s r now = with_icon s r
  notify p Property.power_supply s r now = some (update_warning_level p s, r)
  notify p Property.time_to_empty s r now = some (update_warning_level p s, r)
  notify p Property.state s r now = with_icon (update_warning_level p s) r
  notify p Property.percentage s r now = with_icon (update_warning_level p s) r
  notify p Property.battery_level s r now = with_icon (update_warning_level p s) r
  notify p Property.update_time s r now = some (s, update_history s r now)
  notify p Property.other s r now = some (s, r)

  -- What a notification comes to, if the icon can be found.
  abbrev pub Follows :
      Option Policy
      → Property
      → Skeleton D
      → Recorder D L S
      → ℕ
      → Skeleton D × Recorder D L S
      → Type 0
  Follows p changed s r now (t, u) =
      (notify p changed s r now ≡ some (t, u))
      × (t.battery_level ≡ s.battery_level)
      × ((changed ≡ Property.update_time) ⊎ (u ≡ r))

  with_icon-total :
      (s : Skeleton D) (r : Recorder D L S)
      → s.battery_level ≢ DeviceLevel.discharging
      → s.battery_level ≢ DeviceLevel.action
      → s.battery_level ≢ DeviceLevel.last
      → (name : String) × (with_icon s r ≡ some (record s { icon_name = some name }, r))
  with_icon-total s r d a l =
      let (name, e) = update_icon_name_total s d a l in (name, ap (iconed r) e)

  warned_icon :
      (p : Option Policy) (s : Skeleton D) (r : Recorder D L S)
      → s.battery_level ≢ DeviceLevel.discharging
      → s.battery_level ≢ DeviceLevel.action
      → s.battery_level ≢ DeviceLevel.last
      → (name : String) × (with_icon (update_warning_level p s) r
          ≡ some (record (update_warning_level p s) { icon_name = some name }, r))
  warned_icon p s r d a l =
      let same = warned_battery_level p s in
      with_icon-total (update_warning_level p s) r (λ e. d (sym same ∙ e)) (λ e. a (sym same ∙ e))
        (λ e. l (sym same ∙ e))

  -- No change of a property stops the daemon, as long as the battery level of the device is one
  -- that the documentation of `UpDeviceLevel` allows for it, and the handlers leave that level as
  -- it is; only a change of the update time reaches the history.
  notify_total :
      (p : Option Policy) (changed : Property) (s : Skeleton D) (r : Recorder D L S) (now : ℕ)
      → s.battery_level ≢ DeviceLevel.discharging
      → s.battery_level ≢ DeviceLevel.action
      → s.battery_level ≢ DeviceLevel.last
      → (q : Skeleton D × Recorder D L S) × Follows p changed s r now q
  unfolding notify
  notify_total p Property.type s r now d a l =
      let (name, e) = with_icon-total s r d a l in (_, (e, refl, inr refl))
  notify_total p Property.is_present s r now d a l =
      let (name, e) = with_icon-total s r d a l in (_, (e, refl, inr refl))
  notify_total p Property.power_supply s r now d a l =
      (_, (refl, warned_battery_level p s, inr refl))
  notify_total p Property.time_to_empty s r now d a l =
      (_, (refl, warned_battery_level p s, inr refl))
  notify_total p Property.state s r now d a l =
      let (name, e) = warned_icon p s r d a l in (_, (e, warned_battery_level p s, inr refl))
  notify_total p Property.percentage s r now d a l =
      let (name, e) = warned_icon p s r d a l in (_, (e, warned_battery_level p s, inr refl))
  notify_total p Property.battery_level s r now d a l =
      let (name, e) = warned_icon p s r d a l in (_, (e, warned_battery_level p s, inr refl))
  notify_total p Property.update_time s r now d a l = (_, (refl, refl, inl refl))
  notify_total p Property.other s r now d a l = (_, (refl, refl, inr refl))
