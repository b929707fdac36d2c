-- ===== src/Wakeups/Kernel.antt =====
-- src/up-wakeups.c: `up_wakeups_poll_kernel_cb`, which reads /proc/interrupts.
use upower.Prelude.{
  ℕ, ◌+◌, ◌-◌, ◌%◌, ◌^◌, Bool, true, false, not, ◌||◌, List, [], ◌∷◌, length, take, drop, get_or,
  set, Option, none, some, String, ltb, ◌==◌, if◌then◌else◌,
}
use upower.Prelude.Text.{Text, codes, text_eq, begins}
use upower.Prelude.Text.Decimal.{atoi}
use upower.Floating.{Floating}
use upower.Storage.{Files, Splitter}
use upower.Wakeups.{
  WakeupItem, Wakeups, data_get_or_create, zero_values, with_data, perhaps_data_changed,
}
use upower.Wakeups.Split.{strsplit_complete_set}

-- The interrupts that have a name in place of a number.
abbrev pub special_irqs : List (String × ℕ)
special_irqs =
    ("NMI", 4080)
    ∷ ("LOC", 4081)
    ∷ ("RES", 4082)
    ∷ ("CAL", 4083)
    ∷ ("TLB", 4084)
    ∷ ("TRM", 4085)
    ∷ ("SPU", 4086)
    ∷ ("ERR", 4087)
    ∷ ("MIS", 4088)
    ∷ []

-- The number of an interrupt, and whether it is a special one.
abbrev pub irq_of : Text → List (String × ℕ) → ℕ × Bool
irq_of found [] = (atoi found, false)
irq_of found ((name, irq) ∷ names) =
    if text_eq found (codes name) then (irq, true) else irq_of found names

-- The sum is a `guint`.
unfoldable pub sum_interrupts : ℕ → List Text → ℕ
sum_interrupts interrupts [] = interrupts
sum_interrupts interrupts (found ∷ sections) =
    sum_interrupts ((interrupts + atoi found) % 2 ^ 32) sections

-- `g_strchug`
abbrev strchug : Text → Text
strchug [] = []
strchug (c ∷ cs) =
    let rest = strchug cs in
    if c == 32 || (c == 9 || (c == 10 || (c == 12 || c == 13))) then rest else c ∷ cs

-- `strstr`
unfoldable strstr : Text → Text → Option Text
unfolding begins
strstr part [] = none
strstr part (c ∷ cs) =
    let later = strstr part cs in if begins part (c ∷ cs) then some (c ∷ cs) else later

-- The text behind the part that was found, or the whole; `none` where the end of the text is passed.
abbrev behind : ℕ → Text → Option Text → Option Text
behind n found none = some found
behind n found (some found2) =
    if ltb (length found2) n then none else some (strchug (drop n found2))

abbrev without_edge : Option Text → Option Text
without_edge none = none
without_edge (some found) = behind 14 found (strstr (codes "IO-APIC-edge") found)

-- The details without the type of the interrupt.
unfoldable pub details_of : Text → Option Text
unfolding strstr
details_of found = without_edge (behind 16 found (strstr (codes "IO-APIC-fasteoi") found))

module _ {D : Type 0} where
  abbrev pub describe : WakeupItem D → Bool → Option Text → Option (WakeupItem D)
  describe item special none = none
  describe item special (some details) = some (record item {
    details = some details;
    cmdline = some (codes (if special then "kernel-ipi" else "interrupt"));
    is_userspace = false;
  })

  -- An item that has details keeps them.
  abbrev pub described : WakeupItem D → Bool → Text → Option Text → Option (WakeupItem D)
  described item special found none = describe item special (details_of found)
  described item special found (some details) = some item

module _ {D : Type 0} ⦃f : Floating D⦄ where
  -- The difference to the count before wraps around.
  abbrev pub counted : ℕ → WakeupItem D → WakeupItem D
  counted interrupts item = record item {
    value =
        if ltb 0 item.old
        then f.narrow
            (f.div (f.narrow (f.of_nat ((interrupts + (2 ^ 32 - item.old)) % 2 ^ 32))) (f.litf 2 1))
        else item.value;
    old = interrupts;
  }

  -- The item at its position in the array.
  abbrev pub save :
      ℕ → ℕ → List (WakeupItem D) → Option (WakeupItem D) → Option (List (WakeupItem D))
  save interrupts i items none = none
  save interrupts i items (some item) = some (set items i (counted interrupts item))

  -- The sections of a line of an interrupt: its number, its count on each processor, its details.
  abbrev pub kernel_sections : ℕ → List Text → List (WakeupItem D) → Option (List (WakeupItem D))
  kernel_sections cpus sections items =
      let (irq, special) = irq_of (get_or sections 0 []) special_irqs in
      let interrupts = sum_interrupts 0 (take (cpus - 1) (drop 1 sections)) in
      let (i, item, created) = data_get_or_create irq items in
      let details = get_or sections (cpus + 1) [] in
      if not (length sections == ((2 + cpus) % 2 ^ 32)) || interrupts == 0
      then some items
      else save interrupts i created (described item special details item.details)

  unfoldable pub kernel_line : ℕ → Text → List (WakeupItem D) → Option (List (WakeupItem D))
  kernel_line cpus line items =
      kernel_sections cpus (strsplit_complete_set line (codes " :") ((2 + cpus) % 2 ^ 32)) items

  unfoldable pub kernel_lines :
      ℕ → List Text → Option (List (WakeupItem D)) → Option (List (WakeupItem D))
  kernel_lines cpus lines none = none
  kernel_lines cpus [] (some items) = some items
  kernel_lines cpus (line ∷ lines) (some items) =
      kernel_lines cpus lines (kernel_line cpus line items)

module _ {D L : Type 0} ⦃f : Floating D⦄ where
  abbrev pub polled : Wakeups D L → Option (List (WakeupItem D)) → Option (Wakeups D L)
  polled w none = none
  polled w (some items) = some (perhaps_data_changed (with_data w items))

  -- The first line has a column for each processor; an empty file has no line.
  abbrev pub kernel_table : Wakeups D L → List Text → Option (Wakeups D L)
  kernel_table w [] = none
  kernel_table w (head ∷ lines) =
      let cpus = length (strsplit_complete_set head (codes " ") 0) in
      polled w (kernel_lines cpus lines (some w.priv.items))

module _ {D L : Type 0} ⦃f : Floating D⦄ ⦃p : Splitter⦄ where
  abbrev pub kernel_file : Wakeups D L → Option Text → Option (Wakeups D L)
  kernel_file w none = some w
  kernel_file w (some contents) = kernel_table w (p.strsplit 10 contents)

module _ {D L S : Type 0} ⦃f : Floating D⦄ ⦃p : Splitter⦄ ⦃fs : Files S⦄ where
  -- `none` where the code reads behind the end of a text or of the lines.
  unfoldable pub poll_kernel : S → Wakeups D L → Option (Wakeups D L)
  poll_kernel disk w =
      kernel_file (with_data w (zero_values false w.priv.items))
        (fs.get_contents (codes "/proc/interrupts") disk)
