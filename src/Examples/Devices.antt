-- ===== src/Examples/Devices.antt =====
-- Devices that come and go, and what clients ask them for.
use upower.Prelude.{
  some-Always, some_inj, subst, refl, Bool, ℕ, ◌+◌, ◌≤◌, ◌≡◌, true, List, [], length, All, none,
  some, arith, ◌==◌, if◌then◌else◌,
}
use upower.Prelude.Text.{codes}
use upower.Floating.{Milli, milli_floating}
use upower.Storage.{Memory, memory_files, plain_splitter}
use upower.MainLoop.{Sources, sources_loop, sources-IsMainLoop}
use upower.Types.{DeviceKind}
use upower.DeviceList.{insert, remove}
use upower.DeviceList.References.{held}
use upower.Daemon.Action.{device_changed}
use upower.Daemon.Action.Idle.{IsOnce, device_changed-IsOnce}
use upower.Daemon.Devices.{Objects, device_added_cb, device_removed_cb}
use upower.Daemon.Devices.Held.{device_removed_cb-held}
use upower.History.Graph.{HistoryType, data_of}
use upower.Device.{Skeleton}
use upower.Device.Requests.{get_history, get_statistics}
use upower.Device.Requests.Replies.{
  IsHistory, IsStatistics, AreBetween, get_history-IsHistory, get_statistics-IsStatistics,
}
use upower.Device.Lifecycle.{Object, Methods, init, saved, call, coldplug}
use upower.Device.Lifecycle.Started.{IsOnBus, IsPlaceless, coldplug-IsOnBus}
use upower.Examples.World.{system, milli_text, blank}
use upower.Examples.Recorders.{charged}
use upower.Examples.Graphs.{points}
use upower.History.Recorder.{History}
use upower.History.Item.{HistoryItem}
use upower.History.Resolution.Range.{IsBetween}

-- The laptop, to which a mouse at address 9 was added; its references are the list's, and one more.
abbrev pub objects : Objects Milli Sources
objects = record {
  system = system;
  refs = λ d. if d == 9 then 1 else 2;
  watched = [];
  emitted = [];
  display_daemon = none;
}

abbrev pub with_mouse : Objects Milli Sources
with_mouse = device_added_cb (some "mouse") (some (codes "m")) 9 objects

device_removed_cb-held_example :
    (device_removed_cb (some (codes "m")) 9 5 with_mouse).refs 9
      + held with_mouse.system.daemon.power_devices 9
      + 1
    ≡ with_mouse.refs 9 + held (remove with_mouse.system.daemon.power_devices 9 with_mouse.refs).0 9
unfolding device_added_cb insert
device_removed_cb-held_example = device_removed_cb-held (codes "m") 9 5 with_mouse 9 (omega arith)

idle-IsOnce : IsOnce system
idle-IsOnce i e = absurd (ground arith)

device_changed-IsOnce_example : IsOnce (device_changed system 3 5)
device_changed-IsOnce_example = device_changed-IsOnce sources-IsMainLoop system 3 5 idle-IsOnce

abbrev asked : Skeleton Milli
asked = record blank { has_history = true; has_statistics = true }

get_statistics-IsStatistics_example :
    IsStatistics asked (codes "charging") (get_statistics asked charged.history (codes "charging"))
get_statistics-IsStatistics_example =
    get_statistics-IsStatistics asked charged.history (codes "charging")

abbrev history : History Milli
history = record charged.history {
  id = some (codes "bat");
  data_charge = points;
  data_rate = [];
  data_time_full = [];
  data_time_empty = [];
}

abbrev IsFine : List (HistoryItem Milli) → Type 0
IsFine items = All (IsBetween 1000 1180) items × (length items ≤ 4)

points-IsFine : IsFine points
points-IsFine = (
  (
    (omega arith, omega arith),
    ((omega arith, omega arith), ((omega arith, omega arith), ((omega arith, omega arith), tt))),
  ),
  omega arith,
)

times :
    (type : HistoryType) (items : List (HistoryItem Milli))
    → data_of history type ≡ some items
    → IsFine items
times HistoryType.charge items e = (some-Always IsFine points points-IsFine).always items e
times HistoryType.rate items e = (some-Always IsFine [] (tt, omega arith)).always items e
times HistoryType.time_full items e = (some-Always IsFine [] (tt, omega arith)).always items e
times HistoryType.time_empty items e = (some-Always IsFine [] (tt, omega arith)).always items e
times HistoryType.unknown items e = absurd (ground (arith, e))

history-AreBetween : AreBetween 1000 1180 4 history
history-AreBetween = record { times = times }

get_history-IsHistory_example :
    IsHistory 1000 1180 4 (get_history Milli asked history (codes "charge") 100 2 1200)
get_history-IsHistory_example =
    get_history-IsHistory Milli 1000 1180 4 (omega arith) (omega arith) asked history
      (codes "charge") 100 2 1200 history-AreBetween

-- A device whose refresh counts in its own state.
abbrev Mouse : Type 0
Mouse = Object Milli Sources Memory ℕ

abbrev start_mouse : Mouse → Mouse × Bool
start_mouse o = (record o { skeleton = record o.skeleton { kind = DeviceKind.mouse } }, true)

abbrev count : Mouse → Mouse × Bool
count o = (record o { own = o.own + 1 }, true)

abbrev counting : Methods Milli Sources Memory ℕ
counting = record { coldplug_method = some start_mouse; refresh_method = some count }

counting-IsPlaceless : IsPlaceless counting
counting-IsPlaceless = record {
  coldplug_same = λ method o e.
      subst
        (λ (f : Mouse → Mouse × Bool).
          ((f o).0.object_path ≡ o.object_path) × ((f o).0.daemon ≡ o.daemon))
        (some_inj start_mouse e) (refl, refl);
  refresh_same = λ method o e.
      subst
        (λ (f : Mouse → Mouse × Bool).
          ((f o).0.object_path ≡ o.object_path) × ((f o).0.daemon ≡ o.daemon))
        (some_inj count e) (refl, refl);
}

coldplug-IsOnBus_example :
    IsOnBus
      (λ path. true)
      counting
      (codes "m")
      2000
      1
      (init charged 0)
      (call counting.coldplug_method true (saved 1 2 (some "m") (init charged 0)))
      (coldplug (λ path. true) counting 1 2 (some "m") (codes "m") 2000 (init charged 0))
coldplug-IsOnBus_example =
    coldplug-IsOnBus (λ path. true) counting 1 2 (some "m") (codes "m") 2000 (init charged 0)
      counting-IsPlaceless
