-- ===== src/Supply/Cases.antt =====
-- src/linux/up-device-supply.c: what the three kinds of refresh leave alone.
use upower.Prelude.{◌≡◌, ◌≢◌, refl, subst, ◌⊎◌, inl, inr, Option, none, some, Option-cases, arith}
use upower.Prelude.Text.{Text}
use upower.Floating.{Floating}
use upower.Storage.{Files}
use upower.MainLoop.{MainLoop}
use upower.Types.{DeviceKind, DeviceLevel}
use upower.Supply.{Supply, Surroundings, RefreshResult, success, AsciiText}
use upower.Supply.Sysfs.{AsciiDouble, get_double_with_error}
use upower.Supply.Attributes.{get_capacity_level}
use upower.Supply.Poll.{disable_unknown_poll}
use upower.Supply.Battery.{refresh_battery}
use upower.Supply.Refresh.{
  refresh_line_power, refresh_device, refresh_kind, show_percentage, name_device,
}

module _ {D L G : Type 0} where
  -- What a refresh that is not a battery's keeps of the object.
  pub record IsKept (s t : Supply D L G) : Type 0 where
    pub address : t.address ≡ s.address
    pub poller : t.poller ≡ s.poller
    pub poll_timer_id : t.priv.poll_timer_id ≡ s.priv.poll_timer_id
    pub energy_old : t.priv.energy_old ≡ s.priv.energy_old
    pub energy_old_timespec : t.priv.energy_old_timespec ≡ s.priv.energy_old_timespec
    pub energy_old_first : t.priv.energy_old_first ≡ s.priv.energy_old_first
    pub rate_old : t.priv.rate_old ≡ s.priv.rate_old
    pub unknown_retries :
        (t.priv.unknown_retries ≡ s.priv.unknown_retries) ⊎ (t.priv.unknown_retries ≡ 0)

  abbrev IsOutcome : Supply D L G → Option (Supply D L G × RefreshResult) → Type 0
  IsOutcome s none = Unit
  IsOutcome s (some (t, ret)) = IsKept s t

module _ {D S L G : Type 0} ⦃f : Floating D⦄ ⦃n : AsciiDouble D⦄ ⦃a : AsciiText⦄ ⦃fs : Files S⦄
    ⦃m : MainLoop L⦄ where
  -- The three branches of the dispatch.
  pub refresh_kind_other :
      (env : Surroundings D S) (path : Text) (s : Supply D L G) (kind : DeviceKind)
      → kind ≢ DeviceKind.line_power
      → kind ≢ DeviceKind.battery
      → refresh_kind env path s kind ≡ refresh_device env path s
  unfolding refresh_kind
  refresh_kind_other env path s DeviceKind.line_power line battery = absurd (line refl)
  refresh_kind_other env path s DeviceKind.battery line battery = absurd (battery refl)
  refresh_kind_other env path s DeviceKind.unknown line battery = refl
  refresh_kind_other env path s DeviceKind.ups line battery = refl
  refresh_kind_other env path s DeviceKind.monitor line battery = refl
  refresh_kind_other env path s DeviceKind.mouse line battery = refl
  refresh_kind_other env path s DeviceKind.keyboard line battery = refl
  refresh_kind_other env path s DeviceKind.pda line battery = refl
  refresh_kind_other env path s DeviceKind.phone line battery = refl
  refresh_kind_other env path s DeviceKind.media_player line battery = refl
  refresh_kind_other env path s DeviceKind.tablet line battery = refl
  refresh_kind_other env path s DeviceKind.computer line battery = refl
  refresh_kind_other env path s DeviceKind.gaming_input line battery = refl
  refresh_kind_other env path s DeviceKind.last line battery = refl

  pub refresh_kind-cases :
      (env : Surroundings D S) (path : Text) (s : Supply D L G) (kind : DeviceKind)
      → (refresh_kind env path s kind ≡ some (refresh_line_power env path s))
        ⊎ (refresh_kind env path s kind
            ≡ some (refresh_battery env path (disable_unknown_poll s), success))
        ⊎ (refresh_kind env path s kind ≡ refresh_device env path s)
  unfolding refresh_kind
  refresh_kind-cases env path s DeviceKind.line_power = inl refl
  refresh_kind-cases env path s DeviceKind.battery = inr (inl refl)
  refresh_kind-cases env path s DeviceKind.unknown = inr (inr refl)
  refresh_kind-cases env path s DeviceKind.ups = inr (inr refl)
  refresh_kind-cases env path s DeviceKind.monitor = inr (inr refl)
  refresh_kind-cases env path s DeviceKind.mouse = inr (inr refl)
  refresh_kind-cases env path s DeviceKind.keyboard = inr (inr refl)
  refresh_kind-cases env path s DeviceKind.pda = inr (inr refl)
  refresh_kind-cases env path s DeviceKind.phone = inr (inr refl)
  refresh_kind-cases env path s DeviceKind.media_player = inr (inr refl)
  refresh_kind-cases env path s DeviceKind.tablet = inr (inr refl)
  refresh_kind-cases env path s DeviceKind.computer = inr (inr refl)
  refresh_kind-cases env path s DeviceKind.gaming_input = inr (inr refl)
  refresh_kind-cases env path s DeviceKind.last = inr (inr refl)

  pub refresh_line_power-IsKept :
      (env : Surroundings D S) (path : Text) (s : Supply D L G)
      → IsKept s (refresh_line_power env path s).0
  unfolding refresh_line_power
  refresh_line_power-IsKept env path s = record {
    address = refl;
    poller = refl;
    poll_timer_id = refl;
    energy_old = refl;
    energy_old_timespec = refl;
    energy_old_first = refl;
    rate_old = refl;
    unknown_retries = inl refl;
  }

  show_percentage-IsKept :
      (env : Surroundings D S) (path : Text) (s : Supply D L G) (percentage : D)
      (level : DeviceLevel)
      → IsKept s (show_percentage env path (name_device env path s) percentage level).0
  show_percentage-IsKept env path s percentage level = record {
    address = ground arith;
    poller = ground arith;
    poll_timer_id = ground arith;
    energy_old = ground arith;
    energy_old_timespec = ground arith;
    energy_old_first = ground arith;
    rate_old = ground arith;
    unknown_retries = ground arith;
  }

  refresh_device-IsOutcome :
      (env : Surroundings D S) (path : Text) (s : Supply D L G)
      → IsOutcome s (refresh_device env path s)
  unfolding refresh_device
  refresh_device-IsOutcome env path s =
      elim (Option-cases (get_double_with_error {D = D} env.disk path "capacity")) [
        | inl missing ↦ rw missing (elim (Option-cases (get_capacity_level {D = D} env.disk path)) [
          | inl crash ↦ rw crash tt
          | inr ((percentage, level), e) ↦ rw e (show_percentage-IsKept env path s percentage level)
        ])
        | inr (percentage, e) ↦ rw e (show_percentage-IsKept env path s percentage DeviceLevel.none)
      ]

  pub refresh_device-IsKept :
      (env : Surroundings D S) (path : Text) (s t : Supply D L G) (ret : RefreshResult)
      → refresh_device env path s ≡ some (t, ret)
      → IsKept s t
  refresh_device-IsKept env path s t ret e =
      subst (IsOutcome s) e (refresh_device-IsOutcome env path s)
