-- ===== src/Examples/Backends.antt =====
-- The laptop goes to sleep and wakes up, runs out of power, and its mouse comes and goes.
use upower.Prelude.{
  ℕ, suc, if◌then◌else◌, ◌≡◌, refl, ◌≢◌, true, false, [], ◌∷◌, Option, none, some, All, inl, arith,
}
use upower.Prelude.Int.{negsuc, pos}
use upower.Prelude.Text.{Text, codes, text_eq}
use upower.Floating.{Milli, milli_floating}
use upower.MainLoop.{Sources, sources_loop, sources-IsMainLoop, fire_timeout_callback}
use upower.Daemon.Poll.Sources.{IsRunning}
use upower.Backend.{Backend}
use upower.DeviceList.{lookup, insert}
use upower.Daemon.Devices.{device_added_cb}
use upower.Backend.Critical.{IsPossible, get_critical_action, get_critical_action-IsPossible}
use upower.Backend.Sleep.{
  level_of, Inhibitor, prepare_for_sleep, prepare_for_sleep-quiet, prepare_for_sleep-IsRunning,
}
use upower.Examples.World.{system}
use upower.Backend.Events.{AreGiven, IsKnown, uevent-removed, uevent-refreshed}
use upower.Backend.{Native, Surroundings, uevent}
use upower.Examples.Devices.{with_mouse}
use upower.Examples.Polls.{Handlers, handlers_signals, polled, polled-IsPolled}

-- A logind that gives the descriptor 8, and counts those that are closed.
instance abbrev plain_inhibitor : Inhibitor ℕ
plain_inhibitor = record { inhibit = λ n. (some (pos 8 ∷ []), n); close = λ fd n. suc n }

abbrev backend : Backend Milli Sources Handlers
backend = record {
  objects = record {
    system = record system {
      daemon = record system.daemon { polling = polled.polling };
      loop = polled.loop;
    };
    refs = λ d. 3;
    watched = [];
    emitted = [];
    display_daemon = none;
  };
  signals = polled.signals;
  managed_devices = record { array = []; map_native_path_to_device = [] };
  logind_inhibitor_fd = pos 7;
}

prepare_for_sleep-quiet_example :
    let (t, later) = prepare_for_sleep {O = ℕ} (λ d s. s) (some true) backend 0 in
    (t.logind_inhibitor_fd ≡ negsuc 0)
    × (sources_loop.source 2 t.objects.system.loop ≢ some (fire_timeout_callback 4))
    × (t.objects.system.daemon.polling.poll_paused ≡ true)
prepare_for_sleep-quiet_example =
    prepare_for_sleep-quiet sources-IsMainLoop (λ d s. s) backend 0 2 4 polled-IsPolled

prepare_for_sleep-IsRunning_example :
    let (t, later) = prepare_for_sleep {O = ℕ} (λ d s. s) (some false) backend 0 in
    (t.objects.system.daemon.polling.poll_paused ≡ false)
    × All
        (IsRunning (level_of t) t.objects.system.loop)
        t.objects.system.daemon.polling.poll_timeouts
prepare_for_sleep-IsRunning_example =
    prepare_for_sleep-IsRunning sources-IsMainLoop (λ d s. s) backend 0

-- A logind that can hibernate only.
abbrev hibernates : Text → Option Text
hibernates method = if text_eq method (codes "CanHibernate") then some (codes "yes") else none

get_critical_action-IsPossible_example :
    (method : Text) × (get_critical_action true hibernates none ≡ some method)
    × IsPossible hibernates method
get_critical_action-IsPossible_example = get_critical_action-IsPossible hibernates none

-- No driver takes a device, and a refresh changes nothing.
abbrev plain : Surroundings Milli Sources Handlers
plain = record {
  start = λ driver r. (none, r.0, r.1);
  start_input = λ o. (8, false, o);
  refresh = λ d s. s;
  object_path = λ d. some (codes "m");
  config = record { get_boolean = λ key. false; get_uint = λ key. 0 };
  have_idevice = false;
}

abbrev mouse : Native
mouse = record { subsys = codes "hid"; native_path = some "mouse" }

abbrev plugged : Backend Milli Sources Handlers
plugged = record backend { objects = with_mouse }

plugged-IsKnown : IsKnown plugged mouse 9
unfolding lookup device_added_cb insert
plugged-IsKnown = refl

uevent-removed_example :
    let t = uevent plain (codes "remove") mouse 5 plugged in
    (¬ IsKnown t mouse 9) × AreGiven 9 9 plugged t
unfolding device_added_cb insert
uevent-removed_example =
    uevent-removed plain mouse (codes "m") 9 5 plugged 9 plugged-IsKnown refl (omega arith)

uevent-refreshed_example :
    let t = uevent plain (codes "add") mouse 5 plugged in
    (t.objects.system ≡ plugged.objects.system)
    × (t.signals ≡ plugged.signals)
    × ((x : ℕ) → t.objects.refs x ≡ plugged.objects.refs x)
uevent-refreshed_example =
    uevent-refreshed plain mouse 9 5 plugged (codes "add") (inl refl) plugged-IsKnown
