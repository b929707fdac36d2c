-- ===== src/Daemon/Poll.antt =====
-- src/up-daemon.c: the polling of devices, which can be paused.
pub mod Sources
pub mod Start
use upower.Prelude.{
  ℕ, ◌%◌, ◌^◌, Bool, true, false, not, List, [], ◌∷◌, Option, none, some, ltb, leb, ◌==◌,
  if◌then◌else◌,
}
use upower.MainLoop.{MainLoop, fire_timeout_callback}
use upower.Types.{DeviceLevel, level_to_int}
use upower.Daemon.{TimeoutData, Polling}

-- GObject's signals and weak references, by object and handler. `connect` connects
-- `change_idle_timeout`, and `weak_ref` calls for `device_destroyed`.
pub record Signals (G : Type 0) : Type 0 where
  pub connect : ℕ → G → ℕ × G
  pub is_connected : ℕ → ℕ → G → Bool
  pub disconnect : ℕ → ℕ → G → G
  pub weak_ref : ℕ → G → G
  pub weak_unref : ℕ → G → G

-- What the functions work on.
pub record Poller (L G : Type 0) : Type 0 where
  pub polling : Polling
  pub loop : L
  pub signals : G

-- `UP_DAEMON_SHORT_TIMEOUT` and `UP_DAEMON_LONG_TIMEOUT`, in seconds.
abbrev pub short_timeout : ℕ
short_timeout = 30

abbrev pub long_timeout : ℕ
long_timeout = 120

-- The hash tables, by the address of the device.
module _ {A : Type 0} where
  pub table_lookup : ℕ → List (ℕ × A) → Option A
  table_lookup d [] = none
  table_lookup d ((k, a) ∷ t) = if k == d then some a else table_lookup d t

  pub table_remove : ℕ → List (ℕ × A) → List (ℕ × A)
  table_remove d [] = []
  table_remove d ((k, a) ∷ t) =
      let rest = table_remove d t in if k == d then rest else (k, a) ∷ rest

  abbrev pub table_insert : ℕ → A → List (ℕ × A) → List (ℕ × A)
  table_insert d a t = (d, a) ∷ table_remove d t

-- `level` is the property `warning-level` of each device, as it is when it is read. The levels are
-- numbered, and from `discharging` on the short timeout is taken.
unfoldable pub calculate_timeout : (ℕ → DeviceLevel) → ℕ → ℕ
calculate_timeout level device =
    if leb (level_to_int DeviceLevel.discharging) (level_to_int (level device))
    then short_timeout
    else long_timeout

module _ {L : Type 0} ⦃m : MainLoop L⦄ where
  -- The source for a device, with the data that remembers it.
  unfoldable pub enable_poll_for_device : (ℕ → DeviceLevel) → ℕ → TimeoutData → L → TimeoutData × L
  enable_poll_for_device level device timer loop =
      let timeout = calculate_timeout level device in
      let (id, started) = m.add timeout (fire_timeout_callback device) loop in
      (record timer { timeout = timeout; id = id }, started)

module _ {L G : Type 0} ⦃g : Signals G⦄ where
  unfoldable pub enable_warning_level_notifications : Poller L G → ℕ → Poller L G
  unfolding table_remove
  enable_warning_level_notifications p device =
      let (handler_id, connected) = g.connect device p.signals in
      record p {
        polling = record p.polling {
          idle_signals = table_insert device handler_id p.polling.idle_signals;
        };
        signals = g.weak_ref device connected;
      }

  -- `GPOINTER_TO_UINT` keeps 32 bits of the number of the handler.
  disable_by_id : Poller L G → ℕ → Option ℕ → Poller L G
  disable_by_id p device none = p
  disable_by_id p device (some handler_id) = record p {
    polling = record p.polling { idle_signals = table_remove device p.polling.idle_signals };
    signals =
        if g.is_connected device (handler_id % 2 ^ 32) p.signals
        then g.disconnect device (handler_id % 2 ^ 32) p.signals
        else p.signals;
  }

  unfoldable pub disable_warning_level_notifications : Poller L G → ℕ → Poller L G
  unfolding disable_by_id table_lookup table_remove
  disable_warning_level_notifications p device =
      disable_by_id p device (table_lookup device p.polling.idle_signals)

module _ {L G : Type 0} ⦃m : MainLoop L⦄ ⦃g : Signals G⦄ where
  abbrev pub set_timeouts : Poller L G → List (ℕ × TimeoutData) → Poller L G
  set_timeouts p timeouts = record p { polling = record p.polling { poll_timeouts = timeouts } }

  -- A device whose polling starts; a second start is refused with a warning.
  abbrev pub start_new : (ℕ → DeviceLevel) → Poller L G → ℕ → ℕ → Option TimeoutData → Poller L G
  start_new level p device callback (some timer) = p
  start_new level p device callback none =
      let timer : TimeoutData = record { id = 0; timeout = 0; callback = callback } in
      let old = p.polling.poll_timeouts in
      let notified = enable_warning_level_notifications p device in
      let (started, loop) = enable_poll_for_device level device timer notified.loop in
      if p.polling.poll_paused
      then set_timeouts p (table_insert device timer old)
      else record (set_timeouts notified (table_insert device started old)) { loop = loop }

  unfoldable pub start_poll : (ℕ → DeviceLevel) → Poller L G → ℕ → ℕ → Poller L G
  unfolding table_lookup table_remove
  start_poll level p device callback =
      start_new level p device callback (table_lookup device p.polling.poll_timeouts)

  abbrev pub stop_old : Poller L G → ℕ → Option TimeoutData → Poller L G
  stop_old p device none = p
  stop_old p device (some timer) = record p {
    polling = record p.polling { poll_timeouts = table_remove device p.polling.poll_timeouts };
    loop = m.remove timer.id p.loop;
    signals = g.weak_unref device p.signals;
  }

  unfoldable pub stop_poll : Poller L G → ℕ → Poller L G
  unfolding table_lookup table_remove
  stop_poll p device =
      stop_old (disable_warning_level_notifications p device) device
        (table_lookup device p.polling.poll_timeouts)

  -- `device_destroyed`: as `stop_poll`, without the signals of an object that is gone.
  abbrev pub forget : Poller L G → ℕ → Option TimeoutData → Poller L G
  forget p device none = p
  forget p device (some timer) = record p {
    polling = record p.polling { poll_timeouts = table_remove device p.polling.poll_timeouts };
    loop = m.remove timer.id p.loop;
  }

  unfoldable pub device_destroyed : Poller L G → ℕ → Poller L G
  unfolding table_lookup table_remove
  device_destroyed p device = forget p device (table_lookup device p.polling.poll_timeouts)

  -- `none` is a crash: the handler reads the data of a device that is not polled.
  abbrev pub restart : (ℕ → DeviceLevel) → Poller L G → ℕ → Option TimeoutData → Option (Poller L G)
  restart level p device none = none
  restart level p device (some timer) =
      some (start_poll level (stop_poll p device) device timer.callback)

  unfoldable pub change_idle_timeout : (ℕ → DeviceLevel) → Poller L G → ℕ → Option (Poller L G)
  unfolding table_lookup
  change_idle_timeout level p device =
      restart level p device (table_lookup device p.polling.poll_timeouts)

module _ {L G : Type 0} where
  -- `fire_timeout_callback`, where `call` calls a function with a device. `none` is the failed
  -- assertion that the device is polled; the source stays.
  unfoldable pub fire_timeout :
      (ℕ → ℕ → Poller L G → Poller L G) → Poller L G → ℕ → Option (Poller L G)
  unfolding table_lookup
  fire_timeout call p device = elim (table_lookup device p.polling.poll_timeouts) [
    | none ↦ none
    | some timer ↦ some (call timer.callback device p)
  ]

module _ {L : Type 0} ⦃m : MainLoop L⦄ where
  -- The loops over the table, for the sources.
  unfoldable pub pause_all : List (ℕ × TimeoutData) → L → List (ℕ × TimeoutData) × L
  pause_all [] loop = ([], loop)
  pause_all ((d, timer) ∷ t) loop =
      let idle : TimeoutData = record timer { id = 0 } in
      let (rest, paused) =
        pause_all t (if not (timer.id == 0) then m.remove timer.id loop else loop) in
      ((d, idle) ∷ rest, paused)

  unfoldable pub resume_all :
      (ℕ → DeviceLevel) → List (ℕ × TimeoutData) → L → List (ℕ × TimeoutData) × L
  resume_all level [] loop = ([], loop)
  resume_all level ((d, timer) ∷ t) loop =
      let (running, started) = enable_poll_for_device level d timer loop in
      let (rest, resumed) = resume_all level t started in ((d, running) ∷ rest, resumed)

module _ {L G : Type 0} ⦃g : Signals G⦄ where
  -- The same loops, for the signals.
  unfoldable pub disable_all : Poller L G → List (ℕ × TimeoutData) → Poller L G
  disable_all p [] = p
  disable_all p ((d, timer) ∷ t) = disable_all (disable_warning_level_notifications p d) t

  unfoldable pub enable_all : Poller L G → List (ℕ × TimeoutData) → Poller L G
  enable_all p [] = p
  enable_all p ((d, timer) ∷ t) = enable_all (enable_warning_level_notifications p d) t

module _ {L G : Type 0} ⦃m : MainLoop L⦄ ⦃g : Signals G⦄ where
  unfoldable pub pause_poll : Poller L G → Poller L G
  pause_poll p =
      let (timeouts, loop) = pause_all p.polling.poll_timeouts p.loop in
      let q = disable_all p p.polling.poll_timeouts in
      record q {
        polling = record q.polling { poll_timeouts = timeouts; poll_paused = true };
        loop = loop;
      }

  unfoldable pub resume_poll : (ℕ → DeviceLevel) → Poller L G → Poller L G
  resume_poll level p =
      let (timeouts, loop) = resume_all level p.polling.poll_timeouts p.loop in
      let q = enable_all p p.polling.poll_timeouts in
      record q {
        polling = record q.polling { poll_timeouts = timeouts; poll_paused = false };
        loop = loop;
      }
