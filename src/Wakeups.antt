-- ===== src/Wakeups.antt =====
-- src/up-wakeups.c and libupower-glib/up-wakeup-item.c: what wakes the processor up, and how often.
pub mod Split
pub mod Kernel
pub mod Userspace
pub mod Timerstats
pub mod Silent
pub mod Ends
pub mod Unique
pub mod Sections
pub mod Programs
use upower.Prelude.{
  ℕ, suc, ◌+◌, ◌-◌, ◌%◌, ◌^◌, Bool, true, false, not, List, [], ◌∷◌, Option, none, some, ◌==◌,
  if◌then◌else◌,
}
use upower.Prelude.Int.{ℤ, pos, negsuc}
use upower.Prelude.Text.{Text}
use upower.Floating.{Floating}

-- `UpWakeupItemPrivate`
pub record WakeupItem (D : Type 0) : Type 0 where
  pub is_userspace : Bool
  pub id : ℕ
  pub old : ℕ
  pub value : D
  pub cmdline : Option Text
  pub details : Option Text

-- `UpWakeupsPrivate`
pub record Private (D : Type 0) : Type 0 where
  pub items : List (WakeupItem D)
  pub total_old : ℕ
  pub total_ave : ℕ
  pub poll_userspace_id : ℕ
  pub poll_kernel_id : ℕ
  pub disable_id : ℕ
  pub polling_enabled : Bool

pub data Signal : Type 0 where
  total_changed : ℕ → Signal
  data_changed : Signal

-- The object at its address, with the main loop, what was last written to /proc/timer_stats, and
-- the signals that were sent, the last one first.
pub record Wakeups (D L : Type 0) : Type 0 where
  pub address : ℕ
  pub priv : Private D
  pub has_capability : Bool
  pub loop : L
  pub timer_stats : Text
  pub signals : List Signal

-- `g_ptr_array_sort`
pub record Sorter : Type 1 where
  pub sort : {A : Type 0} → (A → A → ℤ) → List A → List A

module _ {D : Type 0} ⦃f : Floating D⦄ where
  unfoldable pub data_item_compare : WakeupItem D → WakeupItem D → ℤ
  data_item_compare item1 item2 =
      if f.lt item2.value item1.value
      then negsuc 0
      else if f.lt item1.value item2.value
      then pos 1
      else pos 0

  -- `up_wakeup_item_new` with the identifier: GObject clears the rest.
  abbrev pub new_item : ℕ → WakeupItem D
  new_item id = record {
    is_userspace = false;
    id = id;
    old = 0;
    value = f.lit 0 1;
    cmdline = none;
    details = none;
  }

  -- The item with its position, and the array, to which a new item is added at its end.
  unfoldable pub data_get_or_create :
      ℕ → List (WakeupItem D) → ℕ × WakeupItem D × List (WakeupItem D)
  data_get_or_create id [] = (0, new_item id, new_item id ∷ [])
  data_get_or_create id (item ∷ items) =
      let (i, found, later) = data_get_or_create id items in
      if item.id == id then (0, item, item ∷ items) else (suc i, found, item ∷ later)

  -- Items of one of the two kinds count from zero again.
  unfoldable pub zero_values : Bool → List (WakeupItem D) → List (WakeupItem D)
  zero_values userspace [] = []
  zero_values userspace (item ∷ items) =
      (if (if userspace then item.is_userspace else not item.is_userspace)
        then record item { value = f.litf 0 1 }
        else item)
      ∷ zero_values userspace items

  -- The sum is a `gfloat`.
  unfoldable pub sum_values : D → List (WakeupItem D) → D
  sum_values total [] = total
  sum_values total (item ∷ items) = sum_values (f.narrow (f.add total item.value)) items

  unfoldable pub data_get_total : List (WakeupItem D) → ℕ
  data_get_total items = f.to_uint (sum_values (f.litf 0 1) items)

-- What clients get: whether it comes from a program, the identifier, the value and the two texts.
abbrev pub Row : Type 0 → Type 0
Row D = Bool × ℕ × D × Option Text × Option Text

module _ {D : Type 0} ⦃f : Floating D⦄ where
  unfoldable pub rows : List (WakeupItem D) → List (Row D)
  rows [] = []
  rows (item ∷ items) =
      let later = rows items in
      if f.lt item.value (f.litf 1 10)
      then later
      else (item.is_userspace, item.id, item.value, item.cmdline, item.details) ∷ later

-- The difference to the old total wraps around.
unfoldable pub smoothed : (D : Type 0) ⦃f : Floating D⦄ → ℕ → ℕ → ℕ
smoothed D ⦃f⦄ total old =
    if old == 0
    then total
    else f.to_uint
        (f.narrow (f.mul (f.litf 1 8) (f.narrow (f.of_nat ((total + (2 ^ 32 - old)) % 2 ^ 32)))))

module _ {D L : Type 0} ⦃f : Floating D⦄ where
  abbrev pub with_data : Wakeups D L → List (WakeupItem D) → Wakeups D L
  with_data w items = record w { priv = record w.priv { items = items } }

  abbrev pub emit : Signal → Wakeups D L → Wakeups D L
  emit s w = record w { signals = s ∷ w.signals }

  abbrev pub with_total : Wakeups D L → ℕ → Wakeups D L
  with_total w ave = record w { priv = record w.priv { total_ave = ave } }

  -- The old total is not set here, nor anywhere else.
  unfoldable pub perhaps_data_changed : Wakeups D L → Wakeups D L
  perhaps_data_changed w =
      let total = data_get_total w.priv.items in
      let ave = smoothed D total w.priv.total_old in
      emit data_changed
        (if total == w.priv.total_old then w else emit (total_changed ave) (with_total w ave))

  unfoldable pub sort_data : ⦃q : Sorter⦄ → Wakeups D L → Wakeups D L
  sort_data ⦃q⦄ w = with_data w (q.sort data_item_compare w.priv.items)
