-- ===== src/Wakeups/Programs.antt =====
-- src/up-wakeups.c: the items of the programs that wake the processor up.
use upower.Prelude.{
  Always, none-Always, some-Always, ◌≡◌, refl, Bool, true, false, not, ◌||◌, List, [], ◌∷◌, length,
  ℕ, set, get_or, get_elem?, Option, none, some, ◌==◌, if_both,
}
use upower.Prelude.Text.{Text, codes, has_part}
use upower.Prelude.Text.Decimal.{atoi}
use upower.Floating.{Floating}
use upower.Storage.{Files, Splitter, FloatText}
use upower.Wakeups.{WakeupItem, Wakeups, data_get_or_create, zero_values, with_data}
use upower.Wakeups.Split.{strsplit_complete_set}
use upower.Wakeups.Userspace
use upower.Wakeups.Userspace.{
  timer_line, userspace_line, userspace_lines, userspace_file, poll_userspace, interval_of,
  with_interval, is_ignored,
}
use upower.Wakeups.Unique.{
  IsUnique, HasUnique, set-IsUnique, data_get_or_create-IsFound, zero-IsUnique, changed-HasUnique,
}

module _ {D : Type 0} where
  abbrev IsTimedUnique : D × List (WakeupItem D) → Type 0
  IsTimedUnique (interval, items) = IsUnique items

module _ {D : Type 0} ⦃f : Floating D⦄ where
  with_interval-IsUnique :
      (items : List (WakeupItem D)) (o : Option D)
      → IsUnique items
      → Always IsTimedUnique (with_interval items o)
  with_interval-IsUnique items none u = none-Always IsTimedUnique
  with_interval-IsUnique items (some interval) u = some-Always IsTimedUnique (interval, items) u

module _ {D L : Type 0} ⦃f : Floating D⦄ where
  abbrev HasUniqueStill : Wakeups D L × Bool → Type 0
  HasUniqueStill (w, goes_on) = HasUnique w

  polled-HasUnique :
      (w : Wakeups D L) (o : Option (List (WakeupItem D)))
      → Always IsUnique o
      → Always HasUniqueStill (Userspace.polled w o)
  polled-HasUnique w none u = none-Always HasUniqueStill
  polled-HasUnique w (some items) u =
      some-Always HasUniqueStill _ (changed-HasUnique w items (u.always items refl))

module _ {D S : Type 0} ⦃f : Floating D⦄ ⦃fs : Files S⦄ where
  described_id :
      (disk : S) (pid : ℕ) (name details : Text) (item : WakeupItem D) (o : Option Text)
      → (Userspace.described disk pid name details item o).id ≡ item.id
  described_id disk pid name details item none =
      if_both (λ (x : WakeupItem D). x.id ≡ item.id) (Userspace.is_kernel_name name) refl refl
  described_id disk pid name details item (some old) = refl

  timer_line-IsUnique :
      (disk : S) (interval : D) (sections : List Text) (items : List (WakeupItem D))
      → IsUnique items
      → IsUnique (timer_line disk interval sections items)
  timer_line-IsUnique disk interval sections items u =
      let (i, item, created) = data_get_or_create (atoi (get_or sections 1 [])) items in
      let (unique, at, _) = data_get_or_create-IsFound (atoi (get_or sections 1 [])) items u in
      let known =
        Userspace.described disk (atoi (get_or sections 1 [])) (get_or sections 2 [])
          (get_or sections 3 []) item item.details in
      let new = Userspace.counted interval (atoi (get_or sections 0 [])) known in
      if_both IsUnique (not (length sections == 4) || is_ignored sections) {x = items}
        {y = set created i new} u
        (set-IsUnique i item new created at
          (described_id disk (atoi (get_or sections 1 [])) (get_or sections 2 [])
            (get_or sections 3 []) item item.details)
          unique)

module _ {D S : Type 0} ⦃f : Floating D⦄ ⦃fs : Files S⦄ ⦃t : FloatText D⦄ where
  line-IsUnique :
      (disk : S) (line : Text) (interval : D) (items : List (WakeupItem D))
      → IsUnique items
      → Always IsTimedUnique (userspace_line disk line interval items)
  unfolding userspace_line
  line-IsUnique disk line interval items u =
      let sections = strsplit_complete_set line (codes " :") 4 in
      if_both (Always IsTimedUnique)
        (has_part (codes "Timer Stats Version:") line || has_part (codes "events/sec") line)
        (some-Always IsTimedUnique (interval, items) u)
        (if_both (Always IsTimedUnique) (has_part (codes "Sample period:") line)
          (with_interval-IsUnique items (interval_of (get_elem? sections 2)) u)
          (some-Always IsTimedUnique (interval, timer_line disk interval sections items)
            (timer_line-IsUnique disk interval sections items u)))

  lines-IsUnique :
      (disk : S) (lines : List Text) (o : Option (D × List (WakeupItem D)))
      → Always IsTimedUnique o
      → Always IsUnique (userspace_lines disk lines o)
  unfolding userspace_lines
  lines-IsUnique disk lines none u = none-Always IsUnique
  lines-IsUnique disk [] (some (interval, items)) u =
      some-Always IsUnique items (u.always (interval, items) refl)
  lines-IsUnique disk (line ∷ lines) (some (interval, items)) u =
      lines-IsUnique disk lines (userspace_line disk line interval items)
        (line-IsUnique disk line interval items (u.always (interval, items) refl))

module _ {D L S : Type 0} ⦃f : Floating D⦄ ⦃p : Splitter⦄ ⦃fs : Files S⦄ ⦃t : FloatText D⦄ where
  file-HasUnique :
      (disk : S) (w : Wakeups D L) (contents : Option Text)
      → HasUnique w
      → Always HasUniqueStill (userspace_file disk w contents)
  file-HasUnique disk w none u = some-Always HasUniqueStill (w, false) u
  file-HasUnique disk w (some contents) u =
      polled-HasUnique w
        (userspace_lines disk (p.strsplit 10 contents) (some (f.litf 5 1, w.priv.items)))
        (lines-IsUnique disk (p.strsplit 10 contents) (some (f.litf 5 1, w.priv.items))
          (some-Always IsTimedUnique (f.litf 5 1, w.priv.items) u))

  -- Whatever /proc/timer_stats holds, the polling of the programs leaves at most one item for an
  -- identifier, if there was at most one before.
  pub poll_userspace-HasUnique :
      (disk : S) (w v : Wakeups D L) (goes_on : Bool)
      → HasUnique w
      → poll_userspace disk w ≡ some (v, goes_on)
      → HasUnique v
  unfolding poll_userspace
  poll_userspace-HasUnique disk w v goes_on u e =
      let zeroed = with_data w (zero_values true w.priv.items) in
      (file-HasUnique disk zeroed (fs.get_contents (codes "/proc/timer_stats") disk)
          (zero-IsUnique true w.priv.items u)).always
        (v, goes_on) e
