-- ===== src/Supply/Poll.antt =====
-- src/linux/up-device-supply.c: the faster polling of a battery whose state is unknown.
use upower.Prelude.{ℕ, ◌+◌, not, ◌&&◌, ◌||◌, ltb, ◌==◌, if◌then◌else◌}
use upower.Prelude.Int.{pos, ◌-ℤ◌, ltb_ℤ}
use upower.MainLoop.{MainLoop, poll_unknown_battery}
use upower.Types.{DeviceState, state_eq}
use upower.Supply.{Supply, Surroundings}

-- `UP_DAEMON_UNKNOWN_TIMEOUT`, in seconds, and `UP_DAEMON_UNKNOWN_RETRIES`.
abbrev pub unknown_timeout : ℕ
unknown_timeout = 1

abbrev pub max_retries : ℕ
max_retries = 5

module _ {D L G : Type 0} where
  abbrev pub with_loop : Supply D L G → L → Supply D L G
  with_loop s loop = record s { poller = record s.poller { loop = loop } }

module _ {D S L G : Type 0} ⦃m : MainLoop L⦄ where
  -- The new source and the count of the tries, which grows once in a second at most.
  abbrev pub start_unknown_poll : Surroundings D S → Supply D L G → Supply D L G
  start_unknown_poll env s =
      let (id, started) = m.add unknown_timeout (poll_unknown_battery s.address) s.poller.loop in
      let p = s.priv in
      let now = env.monotonic_time in
      record (with_loop s started) {
        priv = record p {
          poll_timer_id = id;
          unknown_retries =
              if ltb_ℤ (pos 1000000) (now -ℤ p.last_unknown_retry)
              then p.unknown_retries + 1
              else p.unknown_retries;
          last_unknown_retry = now;
        };
      }

  unfoldable pub setup_unknown_poll : Surroundings D S → Supply D L G → DeviceState → Supply D L G
  setup_unknown_poll env s state =
      let p = s.priv in
      if p.disable_battery_poll
      then s
      else if ltb p.unknown_retries max_retries
          && (state_eq state DeviceState.unknown || env.needs_poll_after_uevent)
      then start_unknown_poll env s
      else record s { priv = record p { unknown_retries = 0 } }

module _ {D L G : Type 0} ⦃m : MainLoop L⦄ where
  unfoldable pub disable_unknown_poll : Supply D L G → Supply D L G
  disable_unknown_poll s =
      if not (s.priv.poll_timer_id == 0)
      then record (with_loop s (m.remove s.priv.poll_timer_id s.poller.loop)) {
        priv = record s.priv { poll_timer_id = 0 };
      }
      else s
