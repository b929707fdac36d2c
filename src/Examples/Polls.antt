-- ===== src/Examples/Polls.antt =====
-- The polling of src/up-daemon.c with one device.
use upower.Prelude.{ℕ, ◌+◌, Bool, true, false, [], ◌==◌, if◌then◌else◌, arith}
use upower.MainLoop.{Sources, no_sources, sources_loop, sources-IsMainLoop}
use upower.Types.{DeviceLevel}
use upower.Daemon.Poll.{Signals, Poller, start_poll}
use upower.Daemon.Poll.Sources.{IsPolled}
use upower.Daemon.Poll.Start.{start_poll-IsPolled}

-- Handlers that are numbered, and the number of the next one.
pub record Handlers : Type 0 where
  pub next : ℕ
  pub alive : ℕ → Bool

instance abbrev pub handlers_signals : Signals Handlers
handlers_signals = record {
  connect = λ d h.
      (h.next, record { next = h.next + 1; alive = λ i. if i == h.next then true else h.alive i });
  is_connected = λ d i h. h.alive i;
  disconnect = λ d i h. record h { alive = λ j. if j == i then false else h.alive j };
  weak_ref = λ d h. h;
  weak_unref = λ d h. h;
}

abbrev pub idle : Poller Sources Handlers
idle = record {
  polling = record { poll_timeouts = []; poll_paused = false; idle_signals = [] };
  loop = no_sources;
  signals = record { next = 1; alive = λ i. false };
}

abbrev calm : ℕ → DeviceLevel
calm d = DeviceLevel.none

abbrev pub alarmed : ℕ → DeviceLevel
alarmed d = DeviceLevel.low

pub idle-IsPolled : IsPolled idle
idle-IsPolled i d e = absurd (ground arith)

-- A device at address 4, polled with the function at address 77.
abbrev pub polled : Poller Sources Handlers
polled = start_poll calm idle 4 77

pub polled-IsPolled : IsPolled polled
polled-IsPolled = start_poll-IsPolled sources-IsMainLoop calm idle 4 77 idle-IsPolled
