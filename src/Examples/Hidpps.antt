-- ===== src/Examples/Hidpps.antt =====
-- A mouse behind a receiver that answers every request.
use upower.Prelude.{
  ℕ, ◌+◌, ◌≤◌, ◌<◌, ◌≡◌, refl, true, false, [], ◌∷◌, ◌++◌, List, length, take, replicate, get_or,
  Option, none, some, arith, ◌==◌, if◌then◌else◌,
}
use upower.Prelude.Int.{pos}
use upower.Prelude.Text.{codes}
use upower.Prelude.Text.Decimal.{atoi}
use upower.Floating.{Milli, milli_floating}
use upower.MainLoop.{Sources, sources_loop, sources-IsMainLoop}
use upower.Types.{DeviceLevel}
use upower.Hidpp.{
  Private, Polled, ready, nothing, ReadResult, bytes, read_failed, Hidraw, init, set_index,
  set_hidraw_device, short_request, no_message,
}
use upower.Hidpp.Transport.{Answer, discarded, cmd, discard_messages, read_resp, round, rounds}
use upower.Hidpp.Responses.{FitsRequest, Hears, cmd-Fits}
use upower.Hidpp.Time.{IsPunctual, cmd-ends}
use upower.Hidpp.Refresh.{refresh}
use upower.Hidpp.Contract.{IsEnough}
use upower.Hidpp.Contract.Result.{Reports, refresh-Reports}
use upower.Unifying.{Unifying, refresh_flags, refresh_unifying}
use upower.Unifying.Coldplug.{UnsignedText, Surroundings, coldplug}
use upower.Daemon.Poll.Start.{lookup_empty}
use upower.Unifying.Ends.{Ends, refresh_unifying-Ends}
use upower.Unifying.Started.{Starts, coldplug-Starts}
use upower.Examples.World.{blank}
use upower.Examples.Polls.{Handlers, handlers_signals, idle}
use upower.Examples.Supplies.{plain_text}

-- The time, and the answer that waits to be read.
record Receiver : Type 0 where
  clock : ℕ
  pending : Option (List ℕ)

-- The mouse has version 1 and 57 percent. It repeats what it was asked for.
abbrev reply : List ℕ → List ℕ
reply request = take 4 request ++ ((if get_or request 3 0 == 0x10 then 1 else 57) ∷ replicate 15 0)

abbrev is_pending : Option (List ℕ) → Polled
is_pending none = nothing
is_pending (some msg) = ready

abbrev taken : Option (List ℕ) → ReadResult
taken none = read_failed false
taken (some msg) = bytes msg

abbrev count : Option (List ℕ) → ℕ
count none = 0
count (some msg) = 1

instance abbrev receiver_hidraw : Hidraw Receiver
receiver_hidraw = record {
  open_rdwr = λ path os. (pos 3, os);
  write = λ fd msg os. (pos (length msg), record os { pending = some (reply msg) });
  poll = λ fd t os. (is_pending os.pending, os);
  read = λ fd n os. (taken os.pending, record os { pending = none });
  monotonic_time = λ os. (os.clock, record os { clock = os.clock + 1 });
  close = λ fd os. os;
}

count_le : (o : Option (List ℕ)) → count o ≤ 1
count_le none = omega arith
count_le (some msg) = omega arith

taken-count : (o : Option (List ℕ)) → discarded (taken o) ≡ true → 0 < count o
taken-count none e = absurd (ground (arith, e))
taken-count (some msg) e = omega arith

abbrev receiver-IsPunctual : IsPunctual Receiver
receiver-IsPunctual = record {
  now = λ os. os.clock;
  queued = λ os. count os.pending;
  most = 1;
  time-now = λ os. refl;
  ticks = λ os. omega arith;
  time-soon = λ os. omega arith;
  poll-later = λ fd t os. omega arith;
  poll-soon = λ fd t os. omega arith;
  read-later = λ fd n os. omega arith;
  read-soon = λ fd n os. omega arith;
  queued-le-most = λ os. count_le os.pending;
  queued-poll = λ fd t os. omega arith;
  queued-read = λ fd n os e. taken-count os.pending e;
}

abbrev fuel : ℕ
fuel = 3000000

enough : IsEnough receiver-IsPunctual fuel
enough = record { three_seconds = omega arith; messages = omega arith }

abbrev receiver : Receiver
receiver = record { clock = 5000000; pending = some (replicate 20 1) }

abbrev mouse : Private Milli
mouse = set_index 1 (set_hidraw_device (codes "h") init)

abbrev ping : List ℕ
ping = short_request 1 0x00 0x10 0x00 0x00 0x42 no_message

cmd-ends_example : (a : Answer Receiver) × (cmd fuel (pos 3) ping receiver ≡ some a)
cmd-ends_example =
    cmd-ends receiver-IsPunctual fuel (pos 3) ping receiver (omega arith) (omega arith)

abbrev heard : Answer Receiver
heard = record {
  error = none;
  message = 0x10 ∷ 1 ∷ 0x00 ∷ 0x10 ∷ 1 ∷ replicate 15 0;
  os = record { clock = 5000002; pending = none };
}

ping-heard : cmd 4 (pos 3) ping receiver ≡ some heard
unfolding cmd discard_messages read_resp rounds round
ping-heard = refl

cmd-Fits_example : FitsRequest ping none heard.message × Hears (pos 3) none heard.message heard.os
cmd-Fits_example = cmd-Fits 4 (pos 3) ping receiver heard ping-heard

refresh-Reports_example : Reports (refresh fuel (refresh_flags mouse) mouse receiver)
refresh-Reports_example =
    refresh-Reports receiver-IsPunctual fuel enough (refresh_flags mouse) mouse receiver

abbrev unifying : Unifying Milli Sources Handlers
unifying = record { address = 4; hidpp_device = some mouse; skeleton = blank; poller = idle }

refresh_unifying-Ends_example :
    Ends
      (refresh_unifying fuel 9000000 unifying receiver)
      (refresh fuel (refresh_flags mouse) mouse receiver)
refresh_unifying-Ends_example =
    refresh_unifying-Ends receiver-IsPunctual fuel enough 9000000 unifying mouse receiver refl

-- A number without anything behind it.
instance abbrev plain_unsigned : UnsignedText
plain_unsigned = record { strtoull = λ t. (atoi t, []) }

abbrev around : Surroundings
around = record {
  type = some (codes "unifying");
  hid_phys = some (codes "usb-0000:1");
  upower_vendor = none;
  id_vendor = some (codes "Logitech");
  sysfs_path = some (codes "/d/m");
  parent_path = some (codes "/d");
  hidraw_list = record { parent_path = some (codes "/d"); device_file = some (codes "h") } ∷ [];
  usbmisc = none;
  level = λ d. DeviceLevel.none;
  refresh_function = 77;
  real_time = 9000000;
}

coldplug-Starts_example : Starts around unifying (coldplug 4 around unifying receiver)
coldplug-Starts_example =
    coldplug-Starts sources-IsMainLoop around unifying (lookup_empty 4) 4 receiver
