-- ===== src/MainLoop.antt =====
-- GLib's main loop as an interface. The daemon keeps the identifiers that the loop hands out and
-- cancels by them; the loop itself is not part of this repository.
use upower.Prelude.{ℕ, ◌+◌, ◌<◌, ◌≡◌, refl, Option, none, some, arith, ◌==◌, leb, if◌then◌else◌}

-- The functions that the daemon hands to the loop, with the object that they are called on.
pub data Callback : Type 0 where
  take_action_timeout_cb : Callback
  refresh_battery_devices_cb : Callback
  fire_timeout_callback : ℕ → Callback
  schedule_save_cb : ℕ → Callback
  poll_unknown_battery : ℕ → Callback
  poll_kernel_cb : ℕ → Callback
  poll_userspace_cb : ℕ → Callback
  disable_cb : ℕ → Callback

-- `add` is `g_timeout_add_seconds` and `g_idle_add` (with interval 0), `remove` is
-- `g_source_remove`, `source i l` is the callback of the source that has identifier `i`, and
-- `interval i l` is the number of seconds it was added with.
pub record MainLoop (L : Type 0) : Type 0 where
  pub add : ℕ → Callback → L → ℕ × L
  pub remove : ℕ → L → L
  pub source : ℕ → L → Option Callback
  pub interval : ℕ → L → ℕ

-- What GLib documents: identifiers are greater than 0 and new, and a removal takes away the one
-- source that it names. A new source has the interval it was added with, and the others keep theirs.
pub record IsMainLoop (L : Type 0) ⦃m : MainLoop L⦄ : Type 0 where
  pub source-zero : (l : L) → m.source 0 l ≡ none
  pub add-fresh : (s : ℕ) (c : Callback) (l : L) → m.source (m.add s c l).0 l ≡ none
  pub add-positive : (s : ℕ) (c : Callback) (l : L) → 0 < (m.add s c l).0
  pub source-add :
      (s : ℕ) (c : Callback) (l : L) (i : ℕ)
      → m.source i (m.add s c l).1 ≡ (if i == (m.add s c l).0 then some c else m.source i l)
  pub interval-add :
      (s : ℕ) (c : Callback) (l : L) (i : ℕ)
      → m.interval i (m.add s c l).1 ≡ (if i == (m.add s c l).0 then s else m.interval i l)
  pub source-remove :
      (j : ℕ) (l : L) (i : ℕ) → m.source i (m.remove j l) ≡ (if i == j then none else m.source i l)

-- A loop that counts its sources: the laws can be met, and the model can be run.
pub record Sources : Type 0 where
  pub next : ℕ
  pub at : ℕ → Option Callback
  pub every : ℕ → ℕ

abbrev pub no_sources : Sources
no_sources = record { next = 1; at = λ i. none; every = λ i. 0 }

-- A loop hands out no identifier twice, so what stands at `next` and above is hidden.
abbrev pub source_at : ℕ → Sources → Option Callback
source_at i l = if i == 0 then none else if leb l.next i then none else l.at i

instance abbrev pub sources_loop : MainLoop Sources
sources_loop = record {
  add = λ s c l. (
    l.next + 1,
    record {
      next = l.next + 2;
      at = λ i. if i == (l.next + 1) then some c else source_at i l;
      every = λ i. if i == (l.next + 1) then s else l.every i;
    },
  );
  remove = λ j l. record l { at = λ i. if i == j then none else l.at i };
  source = source_at;
  interval = λ i l. l.every i;
}

pub sources-IsMainLoop : IsMainLoop Sources
sources-IsMainLoop = record {
  source-zero = λ l. refl;
  add-fresh = λ s c l. ground arith;
  add-positive = λ s c l. omega arith;
  source-add = λ s c l i. ground arith;
  interval-add = λ s c l i. refl;
  source-remove = λ j l i. ground arith;
}
