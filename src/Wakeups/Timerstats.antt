-- ===== src/Wakeups/Timerstats.antt =====
-- src/up-wakeups.c: the start and the end of the polling, and the calls of clients.
use upower.Prelude.{ℕ, Bool, true, false, not, List, [], ◌==◌, if◌then◌else◌}
use upower.Prelude.Text.{codes}
use upower.Floating.{Floating}
use upower.Storage.{Files}
use upower.MainLoop.{MainLoop, poll_kernel_cb, poll_userspace_cb, disable_cb}
use upower.Wakeups.{Private, Wakeups, Sorter, Row, rows, sort_data}

-- What clients get for their two calls.
pub data Reply (D : Type 0) : Type 0 where
  no_hardware_support : Reply D
  cannot_enable : Reply D
  total_reply : ℕ → Reply D
  data_reply : List (Row D) → Reply D

module _ {D : Type 0} where
  abbrev pub without_sources : Private D → Private D
  without_sources p = record p { poll_kernel_id = 0; poll_userspace_id = 0; disable_id = 0 }

module _ {L : Type 0} ⦃m : MainLoop L⦄ where
  abbrev pub clear_source : ℕ → L → L
  clear_source id l = if not (id == 0) then m.remove id l else l

module _ {D L : Type 0} ⦃m : MainLoop L⦄ where
  -- `opens` is whether /proc/timer_stats can be opened.
  unfoldable pub timerstats_disable : Bool → Wakeups D L → Wakeups D L × Bool
  timerstats_disable opens w =
      let p = w.priv in
      let two = clear_source p.poll_userspace_id (clear_source p.poll_kernel_id w.loop) in
      let loop = clear_source p.disable_id two in
      let cleared = record w { priv = without_sources p; loop = loop } in
      if not p.polling_enabled then (w, true) else if not opens then (cleared, false) else (
        record cleared {
          timer_stats = codes "0\n";
          priv = record (without_sources p) { polling_enabled = false };
        },
        true,
      )

  -- The source that ran this goes, as it never repeats.
  unfoldable pub disabled : Bool → ℕ → Wakeups D L → Wakeups D L
  disabled opens id w =
      let off = (timerstats_disable opens w).0 in record off { loop = m.remove id off.loop }

  abbrev pub restart_timeout : Wakeups D L → Wakeups D L
  restart_timeout w =
      let (id, loop) = m.add 30 (disable_cb w.address) (clear_source w.priv.disable_id w.loop) in
      record w { priv = record w.priv { disable_id = id }; loop = loop }

  abbrev pub start_polls : Wakeups D L → Wakeups D L
  start_polls w =
      let (kernel, polled) = m.add 2 (poll_kernel_cb w.address) w.loop in
      let (userspace, loop) = m.add 2 (poll_userspace_cb w.address) polled in
      record w {
        timer_stats = codes "1\n";
        priv = record w.priv {
          poll_kernel_id = kernel;
          poll_userspace_id = userspace;
          polling_enabled = true;
        };
        loop = loop;
      }

  unfoldable pub timerstats_enable : Bool → Wakeups D L → Wakeups D L × Bool
  timerstats_enable opens w =
      let timed = restart_timeout w in
      if timed.priv.polling_enabled
      then (timed, true)
      else if not opens
      then (timed, false)
      else (start_polls timed, true)

  unfoldable pub get_total : Bool → Wakeups D L → Wakeups D L × Reply D
  get_total opens w =
      let (enabled, ret) = timerstats_enable opens w in
      if not w.has_capability
      then (w, no_hardware_support)
      else if not ret
      then (enabled, cannot_enable)
      else (enabled, total_reply enabled.priv.total_ave)

  unfoldable pub get_data :
      ⦃f : Floating D⦄ ⦃q : Sorter⦄ → Bool → Wakeups D L → Wakeups D L × Reply D
  get_data opens w =
      let sorted = sort_data (timerstats_enable opens w).0 in
      if not w.has_capability
      then (w, no_hardware_support)
      else (sorted, data_reply (rows sorted.priv.items))

  unfoldable pub finalize : Bool → Wakeups D L → L
  finalize opens w = (timerstats_disable opens w).0.loop

module _ {D L S : Type 0} ⦃fs : Files S⦄ where
  -- A private structure is zeroed. Both tests are of the same file.
  unfoldable pub init : S → ℕ → L → Wakeups D L
  init disk address loop = record {
    address = address;
    priv = record {
      items = [];
      total_old = 0;
      total_ave = 0;
      poll_userspace_id = 0;
      poll_kernel_id = 0;
      disable_id = 0;
      polling_enabled = false;
    };
    has_capability = fs.file_exists (codes "/proc/interrupts") disk;
    loop = loop;
    timer_stats = [];
    signals = [];
  }
