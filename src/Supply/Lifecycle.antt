-- ===== src/Supply/Lifecycle.antt =====
-- src/linux/up-device-supply.c: the start and the end of a device.
use upower.Prelude.{
  Bool, true, false, not, ◌&&◌, ◌||◌, List, Option, none, some, ◌==◌, if◌then◌else◌,
}
use upower.Prelude.Int.{ℤ, pos}
use upower.Prelude.Text.{Text, codes}
use upower.Floating.{Floating}
use upower.Storage.{Files}
use upower.MainLoop.{MainLoop}
use upower.Types.{DeviceKind, kind_eq}
use upower.Daemon.Poll.{Signals, start_poll, stop_poll}
use upower.Supply.{Private, Supply, Surroundings, AsciiText}
use upower.Supply.Sysfs.{AsciiDouble, file_exists}
use upower.Supply.Attributes.{get_sibling, guess_type}
use upower.Supply.Battery.{reset_values}
use upower.Supply.Refresh.{refresh}

module _ ⦃a : AsciiText⦄ where
  -- Does the device supply the system? An unknown scope is taken for one.
  abbrev pub is_system : Option Text → Bool
  is_system none = true
  is_system (some scope) = not (a.strcasecmp scope (codes "device"))

module _ {D S : Type 0} ⦃a : AsciiText⦄ ⦃fs : Files S⦄ where
  -- A type that cannot be guessed is told by the file `online`.
  abbrev pub kind_of : Surroundings D S → Text → DeviceKind
  kind_of env path =
      let guessed = guess_type env.disk path (get_sibling env.parent env.inputs) in
      if kind_eq guessed DeviceKind.unknown
      then (if file_exists env.disk path "online"
          then DeviceKind.line_power
          else DeviceKind.battery)
      else guessed

-- Line power is not polled, and batteries only if the configuration lets it.
abbrev pub polls : DeviceKind → Bool → Bool
polls kind disabled =
    if not (kind_eq kind DeviceKind.line_power) && not (kind_eq kind DeviceKind.battery)
    then true
    else kind_eq kind DeviceKind.battery && not disabled

module _ {S : Type 0} ⦃fs : Files S⦄ where
  abbrev pub has_capacity : S → Text → Bool
  has_capacity disk path =
      file_exists disk path "capacity" || file_exists disk path "capacity_level"

module _ {D L G : Type 0} where
  abbrev pub set_kind : DeviceKind → Supply D L G → Supply D L G
  set_kind kind s = record s { skeleton = record s.skeleton { kind = kind } }

  abbrev pub set_power_supply : Bool → Supply D L G → Supply D L G
  set_power_supply supplies s = record s { priv = record s.priv { is_power_supply = supplies } }

module _ {D S L G : Type 0} ⦃m : MainLoop L⦄ ⦃g : Signals G⦄ where
  abbrev pub start_polling : Surroundings D S → DeviceKind → Supply D L G → Supply D L G
  start_polling env kind s =
      if polls kind s.priv.disable_battery_poll
      then record s { poller = start_poll env.level s.poller s.address env.refresh_function }
      else s

module _ {D S L G : Type 0} ⦃f : Floating D⦄ ⦃n : AsciiDouble D⦄ ⦃a : AsciiText⦄ ⦃fs : Files S⦄
    ⦃m : MainLoop L⦄ ⦃g : Signals G⦄ where
  -- The `NULL` path of a device, and the power line of a device, are refused. The outer `none` is
  -- the write out of bounds.
  unfoldable pub coldplug :
      Surroundings D S → Option Text → Supply D L G → Option (Supply D L G × Bool)
  coldplug env none s = some (reset_values s, false)
  coldplug env (some path) s =
      let supplies = is_system env.scope in
      let scoped = set_power_supply supplies (reset_values s) in
      let kind = kind_of env path in
      let polled = start_polling env kind (set_kind kind scoped) in
      let refreshed = refresh env path polled in
      if not supplies && not (has_capacity env.disk path) then some (scoped, false) else refreshed

module _ {D L G : Type 0} ⦃m : MainLoop L⦄ ⦃g : Signals G⦄ where
  unfoldable pub finalize : Supply D L G → L
  finalize s =
      let stopped = stop_poll s.poller s.address in
      if not (s.priv.poll_timer_id == 0)
      then m.remove s.priv.poll_timer_id stopped.loop
      else stopped.loop

module _ {D : Type 0} ⦃f : Floating D⦄ where
  -- `up_device_supply_init`: the object is zeroed, and the two buffers hold whatever the memory
  -- held. `polls_not` is the boolean `NoPollBatteries` of the configuration.
  abbrev pub init : List D → List ℤ → Bool → Private D
  init energies times polls_not = record {
    poll_timer_id = 0;
    has_coldplug_values = false;
    coldplug_units = false;
    voltage_design = f.lit 0 1;
    voltage_min_design = f.lit 0 1;
    voltage_max_design = f.lit 0 1;
    energy_old = energies;
    energy_old_timespec = times;
    energy_old_first = 0;
    rate_old = f.lit 0 1;
    unknown_retries = 0;
    last_unknown_retry = pos 0;
    disable_battery_poll = polls_not;
    is_power_supply = false;
    shown_invalid_voltage_warning = false;
  }
