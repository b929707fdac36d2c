-- ===== src/Examples/Recorders.antt =====
-- The recording of a history in src/up-history.c, run on a concrete history.
use upower.Prelude.{false, true, ℕ, ◌≡◌, refl, ◌≢◌, ◌⊎◌, [], ◌∷◌, ◌++◌, some, arith}
use upower.Prelude.Text.{codes}
use upower.Prelude.Text.Decimal.{print_int}
use upower.Floating.{Milli, milli_floating}
use upower.Storage.{plain_splitter, plain-IsSplitter, Memory, memory_files, memory-IsFiles}
use upower.MainLoop.{Sources, no_sources, sources_loop, sources-IsMainLoop, schedule_save_cb}
use upower.Types.{DeviceState}
use upower.History.Item.{HistoryItem, new_item, set_time_to_present}
use upower.History.File.{array_from_file, array_to_file}
use upower.History.Recorder.{
  Recorder, new, set_id, save_data, finalize, load_data, schedule_save, is_low_power, add_marker,
  read_files, write_files,
}
use upower.History.Recorder.Points.{set_state, set_charge_data, new_point}
use upower.History.Recorder.Pending.{Step, Reaches, IsKept, finalize-calls}
use upower.History.Recorder.Accepted.{set_charge_data_saves}
use upower.History.Recorder.Reload.{IsSaved, saved, set_id-save_data}
use upower.Examples.World.{number, milli_text, empty_disk}

abbrev fresh : Recorder Milli Sources Memory
fresh = new 7 (codes "var") no_sources empty_disk

abbrev named : Recorder Milli Sources Memory
named = (set_id fresh (some (codes "bat")) 1000).0

abbrev charging : Recorder Milli Sources Memory
charging = (set_state named DeviceState.charging).0

abbrev pub charged : Recorder Milli Sources Memory
charged = (set_charge_data charging (number 50) 1010).0

path : Reaches fresh charging
path =
    Reaches.next fresh named charging
      (Reaches.next fresh fresh named (Reaches.start fresh)
        (Step.identify fresh (some (codes "bat")) 1000))
      (Step.change_state named DeviceState.charging)

clear : (i : ℕ) → sources_loop.source i no_sources ≢ some (schedule_save_cb 7)
clear i e = ground arith

finalize-calls_example :
    IsKept charged
    × (sources_loop.source 1 (finalize charged 1020).0 ≢ some (schedule_save_cb charged.self))
finalize-calls_example =
    finalize-calls sources-IsMainLoop 7 (codes "var") no_sources empty_disk charged 1020 1 clear
      (Reaches.next fresh charging charged path (Step.add_charge charging (number 50) 1010))

charging-IsKept : IsKept charging
charging-IsKept =
    (finalize-calls sources-IsMainLoop 7 (codes "var") no_sources empty_disk charging 1010 1 clear
      path).0

abbrev with_point : Recorder Milli Sources Memory
with_point = record charging {
  history = record charging.history {
    data_charge =
        charging.history.data_charge ++ (new_point (number 50) DeviceState.charging 1010 ∷ []);
  };
}

set_charge_data_saves_example :
    (charged.history ≡ record with_point.history {
      percentage_last = number 50;
      save_id = charged.history.save_id;
    })
    × (((is_low_power with_point.history ≡ false)
          × (sources_loop.source charged.history.save_id charged.loop ≡ some (schedule_save_cb 7))
          × (charged.disk ≡ with_point.disk))
        ⊎ ((is_low_power with_point.history ≡ true)
            × (charged.disk ≡ (save_data with_point 1010).0.disk)
            × (charged.history.save_id ≡ with_point.history.save_id)
            × (charged.loop ≡ with_point.loop)))
unfolding set_charge_data set_state set_id new load_data schedule_save is_low_power add_marker
    read_files
set_charge_data_saves_example =
    set_charge_data_saves sources-IsMainLoop charging (number 50) 1010 charging-IsKept refl

-- The next history, on the disk that the first one was saved on.
abbrev reopened : Recorder Milli Sources Memory
reopened = record fresh { disk = (save_data charged 1020).0.disk }

abbrev marker : ℕ → HistoryItem Milli
marker now = set_time_to_present new_item now

markers-IsSaved : IsSaved (marker 1000 ∷ [])
unfolding print_int
markers-IsSaved = record {
  plain = omega arith;
  storable = (record { time_fits = omega arith; state_named = λ e. cc }, tt);
}

points-IsSaved : IsSaved (marker 1000 ∷ new_point (number 50) DeviceState.charging 1010 ∷ [])
unfolding print_int
points-IsSaved = record {
  plain = omega arith;
  storable = (
    record { time_fits = omega arith; state_named = λ e. cc },
    (record { time_fits = omega arith; state_named = λ e. cc }, tt),
  );
}

set_id-save_data_example :
    let h = charged.history in
    let read = (set_id reopened (some (codes "bat")) 1030).0.history in
    let last = marker 1030 ∷ [] in
    (read.data_rate ≡ saved [] 604800 1020 h.data_rate ++ last)
    × (read.data_charge ≡ saved [] 604800 1020 h.data_charge ++ last)
    × (read.data_time_full ≡ saved [] 604800 1020 h.data_time_full ++ last)
    × (read.data_time_empty ≡ saved [] 604800 1020 h.data_time_empty ++ last)
unfolding set_charge_data set_state set_id new load_data schedule_save is_low_power add_marker
    read_files array_from_file save_data write_files array_to_file
set_id-save_data_example =
    set_id-save_data plain-IsSplitter memory-IsFiles charged reopened (codes "bat") 1020 1030
      markers-IsSaved points-IsSaved markers-IsSaved markers-IsSaved refl refl refl refl refl
