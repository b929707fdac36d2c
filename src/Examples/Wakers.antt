-- ===== src/Examples/Wakers.antt =====
-- A processor that a timer and a program wake up, as src/up-wakeups.c sees them in /proc.
use upower.Prelude.{
  ◌≡◌, refl, ◌≤◌, Bool, true, false, [], ◌∷◌, length, Option, none, some, arith, if◌then◌else◌,
}
use upower.Prelude.Text.{Text, codes, text_eq, begins, has_part}
use upower.Prelude.Text.Decimal.{atoi, is_digit}
use upower.Floating.{Milli, milli_floating}
use upower.Storage.{Memory, memory_files, plain_splitter, split, FloatText}
use upower.MainLoop.{Sources, no_sources, sources_loop, sources-IsMainLoop}
use upower.Wakeups.{Wakeups, zero_values, perhaps_data_changed}
use upower.Wakeups.Split.{strsplit_complete_set, scan, is_in}
use upower.Wakeups.Timerstats.{finalize, timerstats_enable}
use upower.Wakeups.Userspace.{poll_userspace, userspace_lines, userspace_line}
use upower.Wakeups.Unique.{HasUnique}
use upower.Wakeups.Programs.{poll_userspace-HasUnique}
use upower.Wakeups.Sections.{length-strsplit_complete_set}
use upower.Wakeups.Ends.{IsSilent, called, poll_failed, run, finalize-run}
use upower.Examples.World.{number}

instance abbrev whole_text : FloatText Milli
whole_text = record { format_3f = λ d. []; atof = λ t. number (atoi t) }

abbrev interrupts_line : Text
interrupts_line = codes " 9:      29730        365   IO-APIC-fasteoi   acpi"

length-strsplit_complete_set_example :
    length (strsplit_complete_set interrupts_line (codes " :") 4) ≤ 4
length-strsplit_complete_set_example =
    length-strsplit_complete_set interrupts_line (codes " :") 4 (omega arith) (omega arith)

split_line :
    strsplit_complete_set interrupts_line (codes " :") 4
    ≡ codes "9" ∷ codes "29730" ∷ codes "365" ∷ codes "IO-APIC-fasteoi   acpi" ∷ []
unfolding strsplit_complete_set
split_line = refl

abbrev disk : Memory
disk = record {
  at = λ path.
      if text_eq path (codes "/proc/timer_stats")
      then some (codes "Sample period: 2.0 s\n  12,     7 gedit            hrtimer_start (tick)\n")
      else none;
}

abbrev new : Wakeups Milli Sources
new = record {
  address = 6;
  priv = record {
    items = [];
    total_old = 0;
    total_ave = 0;
    poll_userspace_id = 0;
    poll_kernel_id = 0;
    disable_id = 0;
    polling_enabled = false;
  };
  has_capability = true;
  loop = no_sources;
  timer_stats = [];
  signals = [];
}

new-IsSilent : IsSilent 6 no_sources
new-IsSilent = ((λ i e. ground (arith, e)), (λ i e. ground (arith, e)), (λ i e. ground (arith, e)))

finalize-run_example :
    IsSilent 6 (finalize false (run (called true ∷ poll_failed ∷ called true ∷ []) new))
unfolding timerstats_enable
finalize-run_example =
    finalize-run sources-IsMainLoop (called true ∷ poll_failed ∷ called true ∷ []) new false
      new-IsSilent (refl, refl) refl

abbrev got : Option (Wakeups Milli Sources × Bool) → Wakeups Milli Sources
got none = new
got (some (w, goes_on)) = w

abbrev after : Wakeups Milli Sources
after = got (poll_userspace disk new)

one_polled : poll_userspace disk new ≡ some (after, true)
unfolding poll_userspace userspace_lines userspace_line zero_values split strsplit_complete_set scan
    is_in has_part begins atoi is_digit perhaps_data_changed
one_polled = refl

poll_userspace-HasUnique_example : HasUnique after
poll_userspace-HasUnique_example = poll_userspace-HasUnique disk new after true tt one_polled
