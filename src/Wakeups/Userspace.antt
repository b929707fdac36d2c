-- ===== src/Wakeups/Userspace.antt =====
-- src/up-wakeups.c: `up_wakeups_poll_userspace_cb`, which reads /proc/timer_stats.
use upower.Prelude.{
  ℕ, Bool, true, false, not, ◌||◌, List, [], ◌∷◌, ◌++◌, length, get_or, set, get_elem?, Option,
  none, some, ◌==◌, if◌then◌else◌,
}
use upower.Prelude.Text.{Text, codes, text_eq, begins, has_part}
use upower.Prelude.Text.Decimal.{atoi, print_int}
use upower.Floating.{Floating}
use upower.Storage.{Files, Splitter, FloatText}
use upower.Wakeups.{
  WakeupItem, Wakeups, data_get_or_create, zero_values, with_data, perhaps_data_changed,
}
use upower.Wakeups.Split.{strsplit_complete_set}

-- A text of C ends at its first zero.
abbrev c_string : Text → Text
c_string [] = []
c_string (c ∷ cs) = let rest = c_string cs in if c == 0 then [] else c ∷ rest

abbrev string_of : Option Text → Option Text
string_of none = none
string_of (some t) = some (c_string t)

-- A command line, or the name where there is none.
abbrev or_name : Text → Option Text → Text
or_name name none = name
or_name name (some []) = name
or_name name (some (c ∷ cs)) = c ∷ cs

abbrev pub is_kernel_name : Text → Bool
is_kernel_name name =
    text_eq name (codes "insmod")
    || (text_eq name (codes "modprobe") || text_eq name (codes "swapper"))

module _ {S : Type 0} ⦃fs : Files S⦄ where
  unfoldable pub get_cmdline : S → ℕ → Option Text
  get_cmdline disk pid =
      string_of (fs.get_contents (codes "/proc/" ++ (print_int pid ++ codes "/cmdline")) disk)

module _ {D S : Type 0} ⦃fs : Files S⦄ where
  -- An item that has details keeps them.
  abbrev pub described : S → ℕ → Text → Text → WakeupItem D → Option Text → WakeupItem D
  described disk pid name details item (some old) = item
  described disk pid name details item none =
      if is_kernel_name name
      then record item { cmdline = some name; is_userspace = false; details = some details }
      else record item {
        cmdline = some (or_name name (get_cmdline disk pid));
        is_userspace = true;
        details = some details;
      }

abbrev pub is_ignored : List Text → Bool
is_ignored sections =
    has_part (codes "D") (get_or sections 0 [])
    || (atoi (get_or sections 0 []) == 0
        || (begins (codes "tick_nohz_") (get_or sections 3 [])
            || begins (codes "tick_setup_sched_timer") (get_or sections 3 [])))

module _ {D : Type 0} ⦃f : Floating D⦄ where
  abbrev pub counted : D → ℕ → WakeupItem D → WakeupItem D
  counted interval interrupts item = record item {
    value = f.narrow (f.div (f.narrow (f.of_nat interrupts)) interval);
  }

  abbrev pub interval_of : ⦃t : FloatText D⦄ → Option Text → Option D
  interval_of ⦃t⦄ none = none
  interval_of ⦃t⦄ (some string) = some (f.narrow (t.atof string))

  abbrev pub with_interval : List (WakeupItem D) → Option D → Option (D × List (WakeupItem D))
  with_interval items none = none
  with_interval items (some interval) = some (interval, items)

module _ {D S : Type 0} ⦃f : Floating D⦄ ⦃fs : Files S⦄ where
  -- The four sections of a line: the count, the process, its name, and its function.
  abbrev pub timer_line : S → D → List Text → List (WakeupItem D) → List (WakeupItem D)
  timer_line disk interval sections items =
      let pid = atoi (get_or sections 1 []) in
      let (i, item, created) = data_get_or_create pid items in
      let known =
        described disk pid (get_or sections 2 []) (get_or sections 3 []) item item.details in
      if not (length sections == 4) || is_ignored sections
      then items
      else set created i (counted interval (atoi (get_or sections 0 [])) known)

  unfoldable pub userspace_line :
      ⦃t : FloatText D⦄ → S → Text → D → List (WakeupItem D) → Option (D × List (WakeupItem D))
  userspace_line ⦃t⦄ disk line interval items =
      let sections = strsplit_complete_set line (codes " :") 4 in
      if has_part (codes "Timer Stats Version:") line || has_part (codes "events/sec") line
      then some (interval, items)
      else if has_part (codes "Sample period:") line
      then with_interval items (interval_of (get_elem? sections 2))
      else some (interval, timer_line disk interval sections items)

  unfoldable pub userspace_lines :
      ⦃t : FloatText D⦄
      → S
      → List Text
      → Option (D × List (WakeupItem D))
      → Option (List (WakeupItem D))
  userspace_lines ⦃t⦄ disk lines none = none
  userspace_lines ⦃t⦄ disk [] (some (interval, items)) = some items
  userspace_lines ⦃t⦄ disk (line ∷ lines) (some (interval, items)) =
      userspace_lines disk lines (userspace_line disk line interval items)

module _ {D L : Type 0} ⦃f : Floating D⦄ where
  abbrev pub polled : Wakeups D L → Option (List (WakeupItem D)) → Option (Wakeups D L × Bool)
  polled w none = none
  polled w (some items) = some (perhaps_data_changed (with_data w items), true)

module _ {D L S : Type 0} ⦃f : Floating D⦄ ⦃p : Splitter⦄ ⦃fs : Files S⦄ ⦃t : FloatText D⦄ where
  abbrev pub userspace_file : S → Wakeups D L → Option Text → Option (Wakeups D L × Bool)
  userspace_file disk w none = some (w, false)
  userspace_file disk w (some contents) =
      polled w (userspace_lines disk (p.strsplit 10 contents) (some (f.litf 5 1, w.priv.items)))

  -- With whether the polling goes on. `none` where the code reads behind the end of the sections.
  unfoldable pub poll_userspace : S → Wakeups D L → Option (Wakeups D L × Bool)
  poll_userspace disk w =
      userspace_file disk (with_data w (zero_values true w.priv.items))
        (fs.get_contents (codes "/proc/timer_stats") disk)
