-- ===== src/History/Recorder.antt =====
-- src/up-history.c: a history in memory, the timer that saves it, and its four files.
pub mod Points
pub mod Pending
pub mod Reload
pub mod Accepted
use upower.Prelude.{
  ℕ, ◌*◌, ◌==◌, Bool, true, false, not, List, [], ◌∷◌, ◌++◌, Option, none, some, if◌then◌else◌,
}
use upower.Prelude.Int.{ℤ}
use upower.Prelude.Text.{Text, codes}
use upower.Floating.{Floating}
use upower.Storage.{Splitter, FloatText, Files}
use upower.MainLoop.{MainLoop, schedule_save_cb}
use upower.Types.{DeviceState, state_eq}
use upower.History.Item.{HistoryItem, new_item, set_time_to_present}
use upower.History.File.{array_to_file, array_from_file}

-- `UpHistoryPrivate`
pub record History (D : Type 0) : Type 0 where
  pub id : Option Text
  pub rate_last : D
  pub time_full_last : ℤ
  pub time_empty_last : ℤ
  pub percentage_last : D
  pub state : DeviceState
  pub data_rate : List (HistoryItem D)
  pub data_charge : List (HistoryItem D)
  pub data_time_full : List (HistoryItem D)
  pub data_time_empty : List (HistoryItem D)
  pub save_id : ℕ
  pub max_data_age : ℕ
  pub dir : Text

-- A history, the main loop and the disk. `self` is the address of the history, by which the loop
-- calls it back.
pub record Recorder (D L S : Type 0) : Type 0 where
  pub self : ℕ
  pub history : History D
  pub loop : L
  pub disk : S

abbrev pub has_id : {D : Type 0} → History D → Bool
has_id h = elim h.id [ none ↦ false | some id ↦ true ]

-- `UP_HISTORY_SAVE_INTERVAL`, in seconds.
abbrev pub save_interval : ℕ
save_interval = 10 * 60

-- `UP_HISTORY_DEFAULT_MAX_DATA_AGE`, in seconds.
abbrev pub default_max_data_age : ℕ
default_max_data_age = 7 * 24 * 60 * 60

-- `history-%s-%s.dat`
abbrev pub base_name : Text → Text → Text
base_name type id = codes "history-" ++ (type ++ (codes "-" ++ (id ++ codes ".dat")))

module _ (S : Type 0) ⦃fs : Files S⦄ where
  abbrev pub get_filename : Text → Text → Text → Text
  get_filename dir id type = fs.build_filename dir (base_name type id)

module _ {D L S : Type 0} where
  unfoldable pub set_max_data_age : Recorder D L S → ℕ → Recorder D L S
  set_max_data_age r age = record r { history = record r.history { max_data_age = age } }

  module _ ⦃fs : Files S⦄ where
    unfoldable pub set_directory : Recorder D L S → Text → Recorder D L S
    set_directory r dir = record r {
      history = record r.history { dir = dir };
      disk = fs.mkdir_with_parents dir r.disk;
    }

abbrev pub after_write : {S : Type 0} → S → Option S → S × Bool
after_write disk none = (disk, false)
after_write disk (some written) = (written, true)

-- A write that is only made if the one before it succeeded.
abbrev pub try_write : {S : Type 0} → S × Bool → (S → Option S) → S × Bool
try_write (disk, false) write = (disk, false)
try_write (disk, true) write = after_write disk (write disk)

module _ {D S : Type 0} ⦃x : FloatText D⦄ ⦃fs : Files S⦄ where
  -- The four files. The first that cannot be written ends the saving.
  unfoldable pub write_files : History D → Text → ℕ → S → S × Bool
  write_files h id now disk =
      let write = λ (type : Text) (items : List (HistoryItem D)).
        array_to_file {S = S} h.max_data_age now items (get_filename S h.dir id type) in
      let rate = try_write (disk, true) (write (codes "rate") h.data_rate) in
      let charge = try_write rate (write (codes "charge") h.data_charge) in
      let full = try_write charge (write (codes "time-full") h.data_time_full) in
      try_write full (write (codes "time-empty") h.data_time_empty)

  abbrev pub write_by_id : History D → Option Text → ℕ → S → S × Bool
  write_by_id h none now disk = (disk, false)
  write_by_id h (some id) now disk = write_files h id now disk

module _ {D L S : Type 0} ⦃x : FloatText D⦄ ⦃fs : Files S⦄ where
  -- The second component is what the function returns.
  unfoldable pub save_data : Recorder D L S → ℕ → Recorder D L S × Bool
  save_data r now =
      let (disk, ret) = write_by_id r.history r.history.id now r.disk in
      (record r { disk = disk }, ret)

module _ {D : Type 0} ⦃f : Floating D⦄ where
  abbrev pub last_is_low : List (HistoryItem D) → Bool
  last_is_low [] = false
  last_is_low (item ∷ []) =
      if not (state_eq item.state DeviceState.discharging)
      then false
      else if f.lt (f.lit 10 1) item.value
      then false
      else true
  last_is_low (item ∷ next ∷ items) = last_is_low (next ∷ items)

  unfoldable pub is_low_power : History D → Bool
  is_low_power h =
      if not (state_eq h.state DeviceState.discharging) then false else last_is_low h.data_charge

module _ {D L S : Type 0} ⦃f : Floating D⦄ ⦃x : FloatText D⦄ ⦃fs : Files S⦄ ⦃m : MainLoop L⦄ where
  -- The loop calls the function for the source of the history, and drops the source afterwards,
  -- since the function returns `FALSE`.
  unfoldable pub fire_save : Recorder D L S → ℕ → ℕ → Recorder D L S
  fire_save r now i =
      let saved = (save_data r now).0 in
      record saved { history = record saved.history { save_id = 0 }; loop = m.remove i saved.loop }

  unfoldable pub schedule_save : Recorder D L S → ℕ → Recorder D L S
  schedule_save r now =
      let (id, loop) = m.add save_interval (schedule_save_cb r.self) r.loop in
      if is_low_power r.history
      then (save_data r now).0
      else if not (r.history.save_id == 0)
      then r
      else record r { history = record r.history { save_id = id }; loop = loop }

  -- The loop's source goes first, and the last save is tried even if none is pending.
  unfoldable pub finalize : Recorder D L S → ℕ → L × S
  finalize r now =
      let loop =
        if not (r.history.save_id == 0) then m.remove r.history.save_id r.loop else r.loop in
      (loop, (save_data r now).0.disk)

module _ {D S : Type 0} ⦃f : Floating D⦄ ⦃x : FloatText D⦄ ⦃s : Splitter⦄ ⦃fs : Files S⦄ where
  -- What the four files add to the arrays; a file that cannot be read adds nothing.
  unfoldable pub read_files : History D → Text → S → History D
  read_files h id disk =
      let read = λ (type : Text) (list : List (HistoryItem D)).
        (array_from_file list (get_filename S h.dir id type) disk).0 in
      record h {
        data_rate = read (codes "rate") h.data_rate;
        data_charge = read (codes "charge") h.data_charge;
        data_time_full = read (codes "time-full") h.data_time_full;
        data_time_empty = read (codes "time-empty") h.data_time_empty;
      }

module _ {D : Type 0} ⦃f : Floating D⦄ where
  -- The marker, so that incomplete percentages are not used.
  unfoldable pub add_marker : History D → ℕ → History D
  add_marker h now =
      let marker = set_time_to_present new_item now in
      record h {
        data_rate = h.data_rate ++ (marker ∷ []);
        data_charge = h.data_charge ++ (marker ∷ []);
        data_time_full = h.data_time_full ++ (marker ∷ []);
        data_time_empty = h.data_time_empty ++ (marker ∷ []);
      }

module _ {D L S : Type 0} ⦃f : Floating D⦄ ⦃x : FloatText D⦄ ⦃s : Splitter⦄ ⦃fs : Files S⦄ where
  module _ ⦃m : MainLoop L⦄ where
    unfoldable pub load_data : Recorder D L S → Text → ℕ → Recorder D L S
    load_data r id now =
        schedule_save (record r { history = add_marker (read_files r.history id r.disk) now }) now

    -- An identifier is set once, and loading never fails.
    unfoldable pub set_id : Recorder D L S → Option Text → ℕ → Recorder D L S × Bool
    set_id r none now = (r, false)
    set_id r (some id) now =
        if has_id r.history
        then (r, false)
        else (load_data (record r { history = record r.history { id = some id } }) id now, true)

-- A new history: GObject clears the fields, and the directory is that of the build.
module _ {D L S : Type 0} ⦃f : Floating D⦄ ⦃fs : Files S⦄ where
  unfoldable pub new : ℕ → Text → L → S → Recorder D L S
  unfolding set_directory
  new self history_dir loop disk =
      set_directory
        (record {
          self = self;
          history = record {
            id = none;
            rate_last = f.lit 0 1;
            time_full_last = ℤ.pos 0;
            time_empty_last = ℤ.pos 0;
            percentage_last = f.lit 0 1;
            state = DeviceState.unknown;
            data_rate = [];
            data_charge = [];
            data_time_full = [];
            data_time_empty = [];
            save_id = 0;
            max_data_age = default_max_data_age;
            dir = [];
          };
          loop = loop;
          disk = disk;
        })
        history_dir
