-- ===== src/History/Recorder/Reload.antt =====
-- src/up-history.c: what a history reads from the files of one that was saved.
use upower.Prelude.{
  ℕ, sym, ◌≡◌, refl, ◌≢◌, Bool, true, false, List, [], ◌∷◌, ◌++◌, map, Option, none, some, arith,
  All, get_or, ap, ◌∙◌,
}
use upower.Prelude.Text.{Text, codes}
use upower.Floating.{Floating}
use upower.Storage.{Splitter, IsSplitter, FloatText, Files, IsFiles}
use upower.MainLoop.{MainLoop}
use upower.History.Item.{HistoryItem, new_item, set_time_to_present, rounded, IsStorable}
use upower.History.File.{
  kept, array_to_file, array_from_file, IsPlain, array_from_file-array_to_file,
}
use upower.History.Recorder.{
  History, Recorder, base_name, get_filename, after_write, try_write, write_files, save_data,
  read_files, add_marker, load_data, set_id,
}
use upower.History.Recorder.Accepted.{schedule_save_keeps}

-- Names that differ in a byte.
differ_at : (i : ℕ) (a b : Text) → get_or a i 0 ≢ get_or b i 0 → a ≢ b
differ_at i a b h e = h (ap (λ (t : Text). get_or t i 0) e)

rate_charge : (id : Text) → base_name (codes "rate") id ≢ base_name (codes "charge") id
rate_charge id = differ_at 8 _ _ (λ h. omega arith)

rate_full : (id : Text) → base_name (codes "rate") id ≢ base_name (codes "time-full") id
rate_full id = differ_at 8 _ _ (λ h. omega arith)

rate_empty : (id : Text) → base_name (codes "rate") id ≢ base_name (codes "time-empty") id
rate_empty id = differ_at 8 _ _ (λ h. omega arith)

charge_full : (id : Text) → base_name (codes "charge") id ≢ base_name (codes "time-full") id
charge_full id = differ_at 8 _ _ (λ h. omega arith)

charge_empty : (id : Text) → base_name (codes "charge") id ≢ base_name (codes "time-empty") id
charge_empty id = differ_at 8 _ _ (λ h. omega arith)

full_empty : (id : Text) → base_name (codes "time-full") id ≢ base_name (codes "time-empty") id
full_empty id = differ_at 13 _ _ (λ h. omega arith)

after_write_inv :
    {S : Type 0} (before : S) (o : Option S)
    → (after_write before o).1 ≡ true
    → o ≡ some (after_write before o).0
after_write_inv before none e = cc
after_write_inv before (some after) e = refl

try_write_inv :
    {S : Type 0} (p : S × Bool) (write : S → Option S)
    → (try_write p write).1 ≡ true
    → (p.1 ≡ true) × (write p.0 ≡ some (try_write p write).0)
try_write_inv (before, false) write e = cc
try_write_inv (before, true) write e = (refl, after_write_inv before (write before) e)

module _ {D : Type 0} ⦃x : FloatText D⦄ where
  -- What is read back of an array.
  abbrev pub saved : List (HistoryItem D) → ℕ → ℕ → List (HistoryItem D) → List (HistoryItem D)
  saved list age now items = list ++ map rounded (kept age now items)

  -- An array that is read back as it was, to the three decimals.
  pub record IsSaved (items : List (HistoryItem D)) : Type 0 where
    pub plain : All IsPlain items
    pub storable : All IsStorable items

module _ (S : Type 0) ⦃fs : Files S⦄ (files : IsFiles S) where
  -- Two files of a history have different names.
  get_filename_ne :
      (dir id a b : Text)
      → base_name a id ≢ base_name b id
      → get_filename S dir id b ≢ get_filename S dir id a
  get_filename_ne dir id a b ne e = ne (sym (files.build_filename_inj dir _ _ e))

module _ {D S : Type 0} ⦃f : Floating D⦄ ⦃x : FloatText D⦄ ⦃s : Splitter⦄ ⦃fs : Files S⦄
    (splitter : IsSplitter) (files : IsFiles S) where
  -- A file is read as before another one was written.
  array_from_file_other :
      (age now : ℕ) (list items : List (HistoryItem D)) (path other : Text) (disk disk' : S)
      → array_to_file age now items path disk ≡ some disk'
      → path ≢ other
      → array_from_file list other disk' ≡ array_from_file list other disk
  unfolding array_to_file array_from_file
  array_from_file_other age now list items path other disk disk' e ne =
      let (text_same, exists_same) = files.get-set_ne path _ disk disk' other e ne in
      rw (text_same, exists_same) refl

  read_files-write_files :
      (h g : History D) (id : Text) (now : ℕ) (disk : S)
      → IsSaved h.data_rate
      → IsSaved h.data_charge
      → IsSaved h.data_time_full
      → IsSaved h.data_time_empty
      → g.dir ≡ h.dir
      → (write_files h id now disk).1 ≡ true
      → read_files g id (write_files h id now disk).0 ≡ record g {
        data_rate = saved g.data_rate h.max_data_age now h.data_rate;
        data_charge = saved g.data_charge h.max_data_age now h.data_charge;
        data_time_full = saved g.data_time_full h.max_data_age now h.data_time_full;
        data_time_empty = saved g.data_time_empty h.max_data_age now h.data_time_empty;
      }
  unfolding read_files write_files
  read_files-write_files h g id now disk kr kc kf ke same e =
      let path : Text → Text = λ type. get_filename S h.dir id type in
      let age = h.max_data_age in
      let write : Text → List (HistoryItem D) → S → Option S =
        λ type items. array_to_file age now items (path type) in
      let p1 = try_write (disk, true) (write (codes "rate") h.data_rate) in
      let p2 = try_write p1 (write (codes "charge") h.data_charge) in
      let p3 = try_write p2 (write (codes "time-full") h.data_time_full) in
      let (t3, w4) = try_write_inv p3 (write (codes "time-empty") h.data_time_empty) e in
      let (t2, w3) = try_write_inv p2 (write (codes "time-full") h.data_time_full) t3 in
      let (t1, w2) = try_write_inv p1 (write (codes "charge") h.data_charge) t2 in
      let (t0, w1) = try_write_inv (disk, true) (write (codes "rate") h.data_rate) t1 in
      let ne = get_filename_ne S files h.dir id in
      let rate =
        array_from_file_other age now g.data_rate _ _ _ _ _ w4
          (ne (codes "rate") (codes "time-empty") (rate_empty id))
        ∙ array_from_file_other age now g.data_rate _ _ _ _ _ w3
            (ne (codes "rate") (codes "time-full") (rate_full id))
        ∙ array_from_file_other age now g.data_rate _ _ _ _ _ w2
            (ne (codes "rate") (codes "charge") (rate_charge id))
        ∙ array_from_file-array_to_file splitter files age now g.data_rate _ _ _ _ kr.plain
            kr.storable w1 in
      let charge =
        array_from_file_other age now g.data_charge _ _ _ _ _ w4
          (ne (codes "charge") (codes "time-empty") (charge_empty id))
        ∙ array_from_file_other age now g.data_charge _ _ _ _ _ w3
            (ne (codes "charge") (codes "time-full") (charge_full id))
        ∙ array_from_file-array_to_file splitter files age now g.data_charge _ _ _ _ kc.plain
            kc.storable w2 in
      let full =
        array_from_file_other age now g.data_time_full _ _ _ _ _ w4
          (ne (codes "time-full") (codes "time-empty") (full_empty id))
        ∙ array_from_file-array_to_file splitter files age now g.data_time_full _ _ _ _ kf.plain
            kf.storable w3 in
      let empty =
        array_from_file-array_to_file splitter files age now g.data_time_empty _ _ _ _ ke.plain
          ke.storable w4 in
      rw (same, rate, charge, full, empty) refl

  module _ {L : Type 0} ⦃m : MainLoop L⦄ where
    -- A history that was saved completely is there again for the next one that gets its
    -- identifier: each of its four arrays holds the points that were young enough, in their order
    -- and with their values to three decimals, and then the marker of the time when it was read.
    -- Numbers are printed without tabs and line breaks, and the points are as the file can hold.
    pub set_id-save_data :
        (r t : Recorder D L S) (id : Text) (now later : ℕ)
        → IsSaved r.history.data_rate
        → IsSaved r.history.data_charge
        → IsSaved r.history.data_time_full
        → IsSaved r.history.data_time_empty
        → r.history.id ≡ some id
        → (save_data r now).1 ≡ true
        → t.history.id ≡ none
        → t.history.dir ≡ r.history.dir
        → t.disk ≡ (save_data r now).0.disk
        → let h = r.history in
          let g = t.history in
          let read = (set_id t (some id) later).0.history in
          let age = h.max_data_age in
          let marker : List (HistoryItem D) = set_time_to_present new_item later ∷ [] in
          (read.data_rate ≡ saved g.data_rate age now h.data_rate ++ marker)
          × (read.data_charge ≡ saved g.data_charge age now h.data_charge ++ marker)
          × (read.data_time_full ≡ saved g.data_time_full age now h.data_time_full ++ marker)
          × (read.data_time_empty ≡ saved g.data_time_empty age now h.data_time_empty ++ marker)
    unfolding save_data set_id load_data add_marker
    set_id-save_data r t id now later kr kc kf ke named e fresh same disk =
        let g = record t.history { id = some id } in
        let done : (write_files r.history id now r.disk).1 ≡ true = ground (arith, named) in
        let on_disk : t.disk ≡ (write_files r.history id now r.disk).0 = ground (arith, named) in
        let read = read_files-write_files r.history g id now r.disk kr kc kf ke same done in
        let kept =
          schedule_save_keeps (record t { history = add_marker (read_files g id t.disk) later })
            later in
        rw (fresh, kept, on_disk, read) (refl, refl, refl, refl)
