-- ===== src/History/File.antt =====
-- src/up-history.c: one array of a history, written to a file and read from it.
use mathlib.Core.List.{append_assoc, append-nil}
use upower.Prelude.{
  ℕ, ◌+◌, ◌≡◌, Bool, true, false, List, [], ◌∷◌, ◌++◌, map, Option, none, some, All, All-append, ap,
  ◌∙◌, ◌≢◌, arith, ltb, if◌then◌else◌,
}
use upower.Prelude.Text.{Text}
use upower.Floating.{Floating}
use upower.Storage.{Splitter, IsSplitter, FloatText, Files, IsFiles, Free}
use upower.History.Item.{
  HistoryItem, new_item, to_string, set_from_string, rounded, IsStorable, set_from_string-to_string,
  tab, print_int-Free, state_to_string-Free, append_ne,
}
use upower.Prelude.Text.Decimal.{print_int}
use upower.Types.Names.{state_to_string}

abbrev newline : ℕ
newline = 10

module _ {D : Type 0} where
  -- The items that are young enough to be saved.
  pub kept : ℕ → ℕ → List (HistoryItem D) → List (HistoryItem D)
  kept max_data_age now [] = []
  kept max_data_age now (item ∷ items) =
      let rest = kept max_data_age now items in
      if ltb (item.time + max_data_age) now then rest else item ∷ rest

module _ {D : Type 0} ⦃x : FloatText D⦄ where
  lines : List (HistoryItem D) → Text
  lines [] = []
  lines (item ∷ items) = to_string item ++ (newline ∷ lines items)

  module _ {S : Type 0} ⦃fs : Files S⦄ where
    -- `none` is `FALSE`. Turning an item into a text never fails.
    unfoldable pub array_to_file : ℕ → ℕ → List (HistoryItem D) → Text → S → Option S
    unfolding lines kept
    array_to_file max_data_age now items filename disk =
        fs.set_contents filename (lines (kept max_data_age now items)) disk

module _ {D : Type 0} ⦃f : Floating D⦄ ⦃x : FloatText D⦄ ⦃s : Splitter⦄ where
  -- The lines but the last part, which is what follows the last line break. The second component
  -- says whether the last line was read.
  read_lines : List (HistoryItem D) → Bool → List Text → List (HistoryItem D) × Bool
  read_lines list ret [] = (list, ret)
  read_lines list ret (last ∷ []) = (list, ret)
  read_lines list ret (line ∷ next ∷ rest) =
      let (item, valid) = set_from_string new_item line in
      read_lines (if valid then list ++ (item ∷ []) else list) valid (next ∷ rest)

  read_contents : List (HistoryItem D) → Option Text → List (HistoryItem D) × Bool
  read_contents list none = (list, false)
  read_contents list (some text) = read_lines list true (s.strsplit newline text)

  module _ {S : Type 0} ⦃fs : Files S⦄ where
    unfoldable pub array_from_file : List (HistoryItem D) → Text → S → List (HistoryItem D) × Bool
    unfolding read_contents read_lines
    array_from_file list filename disk =
        if fs.file_exists filename disk
        then read_contents list (fs.get_contents filename disk)
        else (list, false)

module _ {D : Type 0} ⦃x : FloatText D⦄ where
  open x use {format_3f}

  -- Numbers are printed with no separator of the file in them.
  abbrev pub IsPlain : HistoryItem D → Type 0
  IsPlain item = Free tab (format_3f item.value) × Free newline (format_3f item.value)

  to_string-Free :
      (item : HistoryItem D) → Free newline (format_3f item.value) → Free newline (to_string item)
  unfolding to_string
  to_string-Free item plain =
      let end : Free newline (tab ∷ state_to_string item.state) =
        (omega arith, state_to_string-Free newline item.state (omega arith)) in
      let P = λ (c : ℕ). c ≢ newline in
      All-append P (print_int item.time) _ (print_int-Free newline item.time (omega arith))
        (omega arith, All-append P (format_3f item.value) _ plain end)

  lines_ne : (item : HistoryItem D) (items : List (HistoryItem D)) → lines (item ∷ items) ≢ []
  unfolding lines
  lines_ne item items = append_ne (to_string item) newline (lines items)

  module _ ⦃s : Splitter⦄ (laws : IsSplitter) where
    open laws use {split_end, split_sep}

    split-lines :
        (item : HistoryItem D) (items : List (HistoryItem D))
        → All IsPlain (item ∷ items)
        → s.strsplit newline (lines (item ∷ items)) ≡ map to_string (item ∷ items) ++ ([] ∷ [])
    unfolding lines
    split-lines item [] (plain, _) =
        split_end newline (to_string item) (to_string-Free item plain.1)
    split-lines item (next ∷ items) (plain, rest) =
        split_sep newline (to_string item) (lines (next ∷ items)) (to_string-Free item plain.1)
          (lines_ne next items)
        ∙ ap (λ l. to_string item ∷ l) (split-lines next items rest)

module _ {D : Type 0} ⦃f : Floating D⦄ ⦃x : FloatText D⦄ ⦃s : Splitter⦄ (laws : IsSplitter) where
  read_lines-map :
      (list items : List (HistoryItem D))
      → All IsPlain items
      → All IsStorable items
      → read_lines list true (map to_string items ++ ([] ∷ [])) ≡ (list ++ map rounded items, true)
  unfolding read_lines
  read_lines-map list [] p k = rw append-nil
  read_lines-map list (item ∷ []) (p, ps) (k, ks) =
      rw (set_from_string-to_string laws new_item item p.0 k)
  read_lines-map list (item ∷ next ∷ items) (p, ps) (k, ks) =
      rw (set_from_string-to_string laws new_item item p.0 k) (
        read_lines-map (list ++ (rounded item ∷ [])) (next ∷ items) ps ks
        ∙ ap (λ l. (l, true)) (append_assoc list (rounded item ∷ []) _))

  read_contents-lines :
      (list items : List (HistoryItem D))
      → All IsPlain items
      → All IsStorable items
      → read_contents list (some (lines items)) ≡ (list ++ map rounded items, true)
  unfolding read_contents read_lines lines
  read_contents-lines list [] p k = rw (laws.split-nil newline) (rw append-nil)
  read_contents-lines list (item ∷ items) p k =
      rw (split-lines laws item items p) (read_lines-map list (item ∷ items) p k)

  All-kept {κ} :
      (P : HistoryItem D → Type κ) (age now : ℕ) (items : List (HistoryItem D))
      → All P items
      → All P (kept age now items)
  unfolding kept
  All-kept P age now [] h = tt
  All-kept P age now (item ∷ items) (h, hs) = ground (arith, All-kept P age now items hs)

  module _ {S : Type 0} ⦃fs : Files S⦄ (disk_laws : IsFiles S) where
    -- Reading a file that was written adds exactly the items that were young enough to be saved,
    -- in their order and with their values to three decimals, if numbers are printed without tabs
    -- and line breaks and the items hold what a `guint` time and a state with a name can.
    pub array_from_file-array_to_file :
        (age now : ℕ) (list items : List (HistoryItem D)) (filename : Text) (disk disk' : S)
        → All IsPlain items
        → All IsStorable items
        → array_to_file age now items filename disk ≡ some disk'
        → array_from_file list filename disk' ≡ (list ++ map rounded (kept age now items), true)
    unfolding array_to_file array_from_file
    array_from_file-array_to_file age now list items filename disk disk' p k e =
        let text = lines (kept age now items) in
        rw (disk_laws.exists-set filename text disk disk' e) (
          rw (disk_laws.get-set filename text disk disk' e) (
            read_contents-lines list (kept age now items) (All-kept IsPlain age now items p)
              (All-kept IsStorable age now items k)))
