-- ===== src/History/Item.antt =====
-- libupower-glib/up-history-item.c: a point of a history, and its line in the history file.
use mathlib.Core.List.{append-nil}
use upower.Prelude.{
  ℕ, ◌^◌, ◌%◌, ◌<◌, ◌≡◌, ◌≢◌, Bool, true, false, List, [], ◌∷◌, ◌++◌, some, All-map, sym, arith,
}
use upower.Prelude.Text.{Text}
use upower.Prelude.Text.Decimal.{
  print_int, atoi, atoi-print_int, print_int-IsNumeral, IsNumeral, is_digit,
}
use upower.Floating.{Floating}
use upower.Storage.{Splitter, IsSplitter, FloatText, Free}
use upower.Types.{DeviceState}
use upower.Types.Names.{state_to_string, state_from_string, state_from_string-state_to_string}

-- `UpHistoryItemPrivate`
pub record HistoryItem (D : Type 0) : Type 0 where
  pub value : D
  pub time : ℕ
  pub state : DeviceState

abbrev pub tab : ℕ
tab = 9

module _ {D : Type 0} ⦃f : Floating D⦄ where
  abbrev pub new_item : HistoryItem D
  new_item = record { value = f.lit 0 1; time = 0; state = DeviceState.unknown }

module _ {D : Type 0} where
  -- The time in seconds is cut to a `guint`.
  abbrev pub set_time_to_present : HistoryItem D → ℕ → HistoryItem D
  set_time_to_present item now = record item { time = now % 2 ^ 32 }

  -- The line of a history file is that of an item that can be read back.
  pub record IsStorable (item : HistoryItem D) : Type 0 where
    pub time_fits : item.time < 2 ^ 32
    pub state_named : item.state ≢ DeviceState.last

module _ {D : Type 0} ⦃x : FloatText D⦄ where
  open x use {format_3f, atof}

  unfoldable pub to_string : HistoryItem D → Text
  to_string item =
      print_int item.time ++ (tab ∷ (format_3f item.value ++ (tab ∷ state_to_string item.state)))

  -- What the three decimals of the file keep of an item.
  abbrev pub rounded : HistoryItem D → HistoryItem D
  rounded item = record item { value = atof (format_3f item.value) }

numeral-ne : (sep c : ℕ) → sep < b'-' → IsNumeral c → c ≢ sep
unfolding is_digit
numeral-ne sep c h n e = ground arith

pub print_int-Free : (sep n : ℕ) → sep < b'-' → Free sep (print_int n)
print_int-Free sep n h = All-map (print_int n) (λ c. numeral-ne sep c h) (print_int-IsNumeral n)

-- The texts of the states hold no separator.
pub state_to_string-Free : (sep : ℕ) (s : DeviceState) → sep < b'-' → Free sep (state_to_string s)
unfolding state_to_string
state_to_string-Free sep DeviceState.unknown h = omega arith
state_to_string-Free sep _ h = omega arith

state_to_string-ne : (s : DeviceState) → state_to_string s ≢ []
unfolding state_to_string
state_to_string-ne DeviceState.unknown h = cc
state_to_string-ne _ h = cc

pub append_ne : (a : Text) (c : ℕ) (b : Text) → a ++ (c ∷ b) ≢ []
append_ne [] c b h = cc
append_ne (x ∷ a) c b h = cc

module _ {D : Type 0} ⦃x : FloatText D⦄ ⦃s : Splitter⦄ where
  open x use {format_3f, atof}
  open s use {strsplit}

  from_parts : HistoryItem D → List Text → HistoryItem D × Bool
  from_parts item (time ∷ value ∷ state ∷ []) = (
    record { time = atoi time; value = atof value; state = state_from_string (some state) },
    true,
  )
  from_parts item _ = (item, false)

  unfoldable pub set_from_string : HistoryItem D → Text → HistoryItem D × Bool
  unfolding from_parts
  set_from_string item text = from_parts item (strsplit tab text)

  module _ (laws : IsSplitter) where
    open laws use {split_free, split_sep}

    -- An item that is read from the line of another takes its time, its state and its value to
    -- three decimals, whatever it was before.
    pub set_from_string-to_string :
        (old item : HistoryItem D)
        → Free tab (format_3f item.value)
        → IsStorable item
        → set_from_string old (to_string item) ≡ (rounded item, true)
    unfolding set_from_string to_string
    set_from_string-to_string old item plain ok =
        let state = state_to_string item.state in
        rw
          (
            split_sep tab (print_int item.time) (format_3f item.value ++ (tab ∷ state))
                (print_int-Free tab item.time (omega arith))
                (append_ne (format_3f item.value) tab state),
            split_sep tab (format_3f item.value) state plain (state_to_string-ne item.state),
            split_free tab state (state_to_string-Free tab item.state (omega arith))
                (state_to_string-ne item.state),
          )
          (cc (
            sym (append-nil (print_int item.time)),
            atoi-print_int item.time [] ok.time_fits tt,
            state_from_string-state_to_string item.state ok.state_named,
          ))
