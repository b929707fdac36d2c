-- ===== src/Wakeups/Unique.antt =====
-- src/up-wakeups.c: the array of items.
use upower.Prelude.{
  Always, none-Always, some-Always, ℕ, zero, suc, set, get_elem?, some_inj, sym, subst, if_known,
  ◌+◌, ◌-◌, ◌%◌, ◌^◌, length, take, drop, get_or, ◌≡◌, refl, ◌∙◌, ap, Bool, false, not, ◌||◌, List,
  [], ◌∷◌, Option, none, some, arith, ◌==◌, if◌then◌else◌, if_both,
}
use upower.Prelude.Text.{Text, codes}
use upower.Floating.{Floating}
use upower.Storage.{Files, Splitter}
use upower.Wakeups.Split.{strsplit_complete_set}
use upower.Wakeups.Kernel
use upower.Wakeups.Kernel.{
  irq_of, special_irqs, sum_interrupts, kernel_sections, kernel_line, kernel_lines, kernel_table,
  kernel_file, poll_kernel,
}
use upower.Wakeups.{
  WakeupItem, Wakeups, data_get_or_create, zero_values, with_data, with_total, emit, total_changed,
  smoothed, data_get_total, perhaps_data_changed,
}

module _ {D : Type 0} where
  abbrev pub has_item : ℕ → List (WakeupItem D) → Bool
  has_item i [] = false
  has_item i (item ∷ items) = item.id == i || has_item i items

  -- No two items have the same identifier.
  abbrev pub IsUnique : List (WakeupItem D) → Type 0
  IsUnique [] = Unit
  IsUnique (item ∷ items) = (has_item item.id items ≡ false) × IsUnique items

module _ {D : Type 0} ⦃f : Floating D⦄ where
  has_item-set :
      (j i : ℕ) (old new : WakeupItem D) (items : List (WakeupItem D))
      → get_elem? items i ≡ some old
      → new.id ≡ old.id
      → has_item j (set items i new) ≡ has_item j items
  has_item-set j i old new [] e same = refl
  has_item-set j zero old new (item ∷ items) e same =
      ap (λ (n : ℕ). n == j || has_item j items)
        (same ∙ ap (λ (x : WakeupItem D). x.id) (sym (some_inj item e)))
  has_item-set j (suc i) old new (item ∷ items) e same =
      ap (λ b. item.id == j || b) (has_item-set j i old new items e same)

  -- An item that changes, but for its identifier, stays the only one.
  pub set-IsUnique :
      (i : ℕ) (old new : WakeupItem D) (items : List (WakeupItem D))
      → get_elem? items i ≡ some old
      → new.id ≡ old.id
      → IsUnique items
      → IsUnique (set items i new)
  set-IsUnique i old new [] e same u = tt
  set-IsUnique zero old new (item ∷ items) e same (free, u) = (
    subst (λ n. has_item n items ≡ false)
        (sym (same ∙ ap (λ (x : WakeupItem D). x.id) (sym (some_inj item e)))) free,
    u,
  )
  set-IsUnique (suc i) old new (item ∷ items) e same (free, u) =
      (has_item-set item.id i old new items e same ∙ free, set-IsUnique i old new items e same u)

  -- What `data_get_or_create` gives: the array with the item of that identifier at its position.
  abbrev pub IsFound : ℕ → List (WakeupItem D) → ℕ × WakeupItem D × List (WakeupItem D) → Type 0
  IsFound id items r =
      IsUnique r.2
      × (get_elem? r.2 r.0 ≡ some r.1)
      × ((j : ℕ) → has_item j r.2 ≡ ((id == j) || has_item j items))

  pub data_get_or_create-IsFound :
      (id : ℕ) (items : List (WakeupItem D))
      → IsUnique items
      → IsFound id items (data_get_or_create id items)
  unfolding data_get_or_create
  data_get_or_create-IsFound id [] u = ((refl, tt), refl, λ j. refl)
  data_get_or_create-IsFound id (item ∷ items) (free, u) =
      let (unique, at, has) = data_get_or_create-IsFound id items u in
      let (i, found, later) = data_get_or_create id items in
      if_known (IsFound id (item ∷ items)) (item.id == id) {x = (0, item, item ∷ items)}
        {y = (suc i, found, item ∷ later)} (λ here. ((free, u), refl, λ j. ground (arith, here)))
        λ other.
          ((has item.id ∙ ground (arith, other, free), unique), at, λ j. ground (arith, has j))

  zero-has_item :
      (b : Bool) (i : ℕ) (items : List (WakeupItem D))
      → has_item i (zero_values b items) ≡ has_item i items
  unfolding zero_values
  zero-has_item b i [] = refl
  zero-has_item b i (item ∷ items) =
      let later = zero-has_item b i items in
      if_both
        (λ (x : WakeupItem D).
          ((x.id == i) || has_item i (zero_values b items)) ≡ ((item.id == i) || has_item i items))
        (if b then item.is_userspace else not item.is_userspace)
        (ap (λ z. (item.id == i) || z) later) (ap (λ z. (item.id == i) || z) later)

  pub zero-IsUnique :
      (b : Bool) (items : List (WakeupItem D)) → IsUnique items → IsUnique (zero_values b items)
  unfolding zero_values
  zero-IsUnique b [] u = tt
  zero-IsUnique b (item ∷ items) (free, u) =
      let later = zero-IsUnique b items u in
      if_both (λ (x : WakeupItem D). IsUnique (x ∷ zero_values b items))
        (if b then item.is_userspace else not item.is_userspace)
        (zero-has_item b item.id items ∙ free, later) (zero-has_item b item.id items ∙ free, later)

module _ {D : Type 0} ⦃f : Floating D⦄ where
  SameId : WakeupItem D → WakeupItem D → Type 0
  SameId old item = item.id ≡ old.id

  details_SameId :
      (old : WakeupItem D) (special : Bool) (o : Option Text)
      → Always (SameId old) (Kernel.describe old special o)
  unfolding SameId
  details_SameId old special none = none-Always (SameId old)
  details_SameId old special (some d) = some-Always (SameId old) _ refl

  described-SameId :
      (old : WakeupItem D) (special : Bool) (found : Text) (o : Option Text)
      → Always (SameId old) (Kernel.described old special found o)
  unfolding SameId
  described-SameId old special found none = details_SameId old special (Kernel.details_of found)
  described-SameId old special found (some d) = some-Always (SameId old) old refl

  save-IsUnique :
      (interrupts i : ℕ) (old : WakeupItem D) (items : List (WakeupItem D))
      (o : Option (WakeupItem D))
      → IsUnique items
      → get_elem? items i ≡ some old
      → Always (SameId old) o
      → Always IsUnique (Kernel.save interrupts i items o)
  unfolding SameId
  save-IsUnique interrupts i old items none u e k = none-Always IsUnique
  save-IsUnique interrupts i old items (some item) u e k =
      some-Always IsUnique _
        (set-IsUnique i old (Kernel.counted interrupts item) items e (k.always item refl) u)

  kernel_sections-IsUnique :
      (cpus : ℕ) (sections : List Text) (items : List (WakeupItem D))
      → IsUnique items
      → Always IsUnique (kernel_sections cpus sections items)
  kernel_sections-IsUnique cpus sections items u =
      let (irq, special) = irq_of (get_or sections 0 []) special_irqs in
      let interrupts = sum_interrupts 0 (take (cpus - 1) (drop 1 sections)) in
      let (i, item, created) = data_get_or_create irq items in
      let (unique, at, _) = data_get_or_create-IsFound irq items u in
      let details = get_or sections (cpus + 1) [] in
      if_both (Always IsUnique) (not (length sections == ((2 + cpus) % 2 ^ 32)) || interrupts == 0)
        (some-Always IsUnique items u)
        (save-IsUnique interrupts i item created
          (Kernel.described item special details item.details) unique at
          (described-SameId item special details item.details))

  kernel_line-IsUnique :
      (cpus : ℕ) (line : Text) (items : List (WakeupItem D))
      → IsUnique items
      → Always IsUnique (kernel_line cpus line items)
  unfolding kernel_line
  kernel_line-IsUnique cpus line items u =
      kernel_sections-IsUnique cpus (strsplit_complete_set line (codes " :") ((2 + cpus) % 2 ^ 32))
        items u

  kernel_lines-IsUnique :
      (cpus : ℕ) (lines : List Text) (o : Option (List (WakeupItem D)))
      → Always IsUnique o
      → Always IsUnique (kernel_lines cpus lines o)
  unfolding kernel_lines
  kernel_lines-IsUnique cpus lines none u = none-Always IsUnique
  kernel_lines-IsUnique cpus [] (some items) u = u
  kernel_lines-IsUnique cpus (line ∷ lines) (some items) u =
      kernel_lines-IsUnique cpus lines (kernel_line cpus line items)
        (kernel_line-IsUnique cpus line items (u.always items refl))

module _ {D L : Type 0} ⦃f : Floating D⦄ where
  abbrev pub HasUnique : Wakeups D L → Type 0
  HasUnique w = IsUnique w.priv.items

  pub changed-HasUnique :
      (w : Wakeups D L) (items : List (WakeupItem D))
      → IsUnique items
      → HasUnique (perhaps_data_changed (with_data w items))
  unfolding perhaps_data_changed
  changed-HasUnique w items u =
      let v = with_data w items in
      let total = data_get_total items in
      if_both HasUnique (total == w.priv.total_old) {x = v}
        {y = emit (total_changed (smoothed D total w.priv.total_old))
          (with_total v (smoothed D total w.priv.total_old))}
        u u

  polled-HasUnique :
      (w : Wakeups D L) (o : Option (List (WakeupItem D)))
      → Always IsUnique o
      → Always HasUnique (Kernel.polled w o)
  polled-HasUnique w none u = none-Always HasUnique
  polled-HasUnique w (some items) u =
      some-Always HasUnique _ (changed-HasUnique w items (u.always items refl))

module _ {D L : Type 0} ⦃f : Floating D⦄ ⦃p : Splitter⦄ where
  table-HasUnique :
      (w : Wakeups D L) (lines : List Text) → HasUnique w → Always HasUnique (kernel_table w lines)
  table-HasUnique w [] u = none-Always HasUnique
  table-HasUnique w (head ∷ lines) u =
      let cpus = length (strsplit_complete_set head (codes " ") 0) in
      polled-HasUnique w (kernel_lines cpus lines (some w.priv.items))
        (kernel_lines-IsUnique cpus lines (some w.priv.items) (some-Always IsUnique w.priv.items u))

  file-HasUnique :
      (w : Wakeups D L) (contents : Option Text)
      → HasUnique w
      → Always HasUnique (kernel_file w contents)
  file-HasUnique w none u = some-Always HasUnique w u
  file-HasUnique w (some contents) u = table-HasUnique w (p.strsplit 10 contents) u

module _ {D L S : Type 0} ⦃f : Floating D⦄ ⦃p : Splitter⦄ ⦃fs : Files S⦄ where
  -- Whatever /proc/interrupts holds, the polling of the kernel leaves at most one item for an
  -- identifier, if there was at most one before.
  pub poll_kernel-HasUnique :
      (disk : S) (w v : Wakeups D L) → HasUnique w → poll_kernel disk w ≡ some v → HasUnique v
  unfolding poll_kernel
  poll_kernel-HasUnique disk w v u e =
      let zeroed = with_data w (zero_values false w.priv.items) in
      (file-HasUnique zeroed (fs.get_contents (codes "/proc/interrupts") disk)
          (zero-IsUnique false w.priv.items u)).always
        v e
