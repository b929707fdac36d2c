-- ===== src/Examples/Supplies.antt =====
-- A laptop battery and a mouse, as src/linux/up-device-supply.c sees them in sysfs.
use upower.Prelude.{
  ℕ, ◌+◌, ◌≡◌, refl, ◌∙◌, ap, sym, inl, inr, ◌≢◌, Bool, true, false, ◌&&◌, List, [], ◌∷◌, ◌++◌,
  replicate, Option, none, some, String, arith, ◌==◌, leb, ltb, if◌then◌else◌,
}
use upower.Prelude.Int.{pos}
use upower.Prelude.Text.{Text, codes, text_eq}
use upower.Prelude.Text.Decimal.{atoi}
use upower.Floating.{Milli, milli_floating}
use upower.Storage.{Memory, memory_files}
use upower.MainLoop.{
  Sources, sources_loop, sources-IsMainLoop, poll_unknown_battery, fire_timeout_callback,
}
use upower.Types.{DeviceKind, DeviceLevel}
use upower.Supply.{Supply, Surroundings, AsciiText}
use upower.Supply.Sysfs.{AsciiDouble}
use upower.Supply.Refresh.{refresh}
use upower.Supply.Lifecycle.{init, finalize}
use upower.Supply.Errors.{refresh-cases}
use upower.Supply.Sound.{IsSound}
use upower.Supply.Sound.Refresh.{refresh-IsSound}
use upower.Supply.Sound.Ends.{finalize-silent}
use upower.Examples.World.{number, blank}
use upower.Examples.Polls.{Handlers, handlers_signals, idle, idle-IsPolled}

abbrev lower : ℕ → ℕ
lower c = if leb 65 c && leb c 90 then c + 32 else c

same_letters : Text → Text → Bool
same_letters [] [] = true
same_letters (x ∷ xs) (y ∷ ys) = (lower x == lower y) && same_letters xs ys
same_letters _ _ = false

ascii : Text → Bool
ascii [] = true
ascii (c ∷ cs) = ltb c 128 && ascii cs

instance abbrev pub plain_text : AsciiText
unfolding same_letters ascii
plain_text = record {
  strcasecmp = same_letters;
  strstrip = λ t. t;
  isprint = λ c. leb 32 c && leb c 126;
  utf8_validate = ascii;
}

instance abbrev pub plain_double : AsciiDouble Milli
plain_double = record { strtod = λ t. number (atoi t); errno = λ t. 0 }

-- A directory of attributes.
abbrev pub find_file : Text → List (String × String) → Option Text
find_file path [] = none
find_file path ((name, contents) ∷ rest) =
    if text_eq path (codes "b/" ++ codes name) then some (codes contents) else find_file path rest

abbrev pub disk_of : List (String × String) → Memory
disk_of files = record { at = λ path. find_file path files }

abbrev pub path : Text
path = codes "b"

abbrev pub battery_disk : Memory
battery_disk = disk_of (
    ("type", "Battery")
    ∷ ("status", "Unknown")
    ∷ ("energy_now", "20000000")
    ∷ ("energy_full", "50000000")
    ∷ ("energy_full_design", "50000000")
    ∷ [])

abbrev pub around : Memory → Surroundings Milli Memory
around disk = record {
  disk = disk;
  scope = none;
  parent = none;
  inputs = [];
  devices = [];
  level = λ d. DeviceLevel.none;
  refresh_function = 77;
  needs_poll_after_uevent = false;
  rate_time = pos 1000;
  push_time = pos 1000;
  monotonic_time = pos 5000000;
  real_time = 1000;
}

abbrev pub env : Surroundings Milli Memory
env = around battery_disk

-- A battery that was just made, at address 4.
abbrev pub fresh : Supply Milli Sources Handlers
fresh = record {
  address = 4;
  priv = init (replicate 4 (number 0)) (replicate 4 (pos 0)) false;
  skeleton = record blank { kind = DeviceKind.battery };
  poller = idle;
}

pub fresh-IsSound : IsSound fresh
fresh-IsSound = record {
  ring = record { energies = refl; times = refl; position = omega arith };
  single = λ i e. absurd (ground arith);
  retries = omega arith;
}

abbrev got : Option (Supply Milli Sources Handlers × Bool) → Supply Milli Sources Handlers
got none = fresh
got (some (t, ret)) = t

-- A battery's refresh returns.
battery_returns :
    (s : Supply Milli Sources Handlers)
    → s.skeleton.kind ≡ DeviceKind.battery
    → refresh env path s ≡ some (got (refresh env path s), true)
battery_returns s h = elim (refresh-cases env path s) [
  | inl (t, e, _) ↦ e ∙ ap (λ o. some (got o, true)) (sym e)
  | inr ((_, _, ne), _) ↦ absurd (ne h)
]

abbrev refreshed : Supply Milli Sources Handlers
refreshed = got (refresh env path fresh)

refresh-IsSound_example : IsSound refreshed
refresh-IsSound_example =
    refresh-IsSound sources-IsMainLoop env path fresh refreshed true fresh-IsSound
      (battery_returns fresh refl)

finalize-silent_example :
    (sources_loop.source 2 (finalize fresh) ≢ some (poll_unknown_battery 4))
    × (sources_loop.source 2 (finalize fresh) ≢ some (fire_timeout_callback 4))
finalize-silent_example = finalize-silent sources-IsMainLoop fresh 2 fresh-IsSound idle-IsPolled
