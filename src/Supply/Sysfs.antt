-- ===== src/Supply/Sysfs.antt =====
-- src/linux/sysfs-utils.c: reading the attributes of a directory of sysfs.
use upower.Prelude.{
  ℕ, ◌-◌, ◌^◌, Bool, false, [], ◌∷◌, Option, none, some, String, ltb, ◌==◌, if◌then◌else◌,
}
use upower.Prelude.Int.{ℤ, pos, negsuc}
use upower.Prelude.Text.{Text, codes, text_eq}
use upower.Prelude.Text.Decimal.{atoi}
use upower.Floating.{Floating}
use upower.Storage.{Files}

-- `g_ascii_strtod`, and the `errno` that it leaves behind.
pub record AsciiDouble (D : Type 0) : Type 0 where
  pub strtod : Text → D
  pub errno : Text → ℕ

-- The text before the first line break.
abbrev first_line : Text → Text
first_line [] = []
first_line (c ∷ cs) = if c == 10 then [] else c ∷ first_line cs

-- The 32 bits that `atoi` gives, as a `gint`.
abbrev pub signed_int : ℕ → ℤ
signed_int n = if ltb n (2 ^ 31) then pos n else negsuc (2 ^ 32 - n - 1)

abbrev text_or_empty : Option Text → Text
text_or_empty none = []
text_or_empty (some t) = t

abbrev int_of : Option Text → ℤ
int_of none = pos 0
int_of (some t) = signed_int (atoi t)

abbrev is_one : Option Text → Bool
is_one none = false
is_one (some t) = text_eq (first_line t) (codes "1")

module _ {S : Type 0} ⦃fs : Files S⦄ where
  abbrev pub contents_of : S → Text → String → Option Text
  contents_of disk dir attribute = fs.get_contents (fs.build_filename dir (codes attribute)) disk

  -- A file that cannot be read gives the empty text.
  unfoldable pub get_string : S → Text → String → Text
  get_string disk dir attribute = text_or_empty (contents_of disk dir attribute)

  unfoldable pub get_int : S → Text → String → ℤ
  get_int disk dir attribute = int_of (contents_of disk dir attribute)

  unfoldable pub get_bool : S → Text → String → Bool
  get_bool disk dir attribute = is_one (contents_of disk dir attribute)

  unfoldable pub file_exists : S → Text → String → Bool
  file_exists disk dir attribute = fs.file_exists (fs.build_filename dir (codes attribute)) disk

module _ {D : Type 0} ⦃f : Floating D⦄ ⦃n : AsciiDouble D⦄ where
  abbrev double_of : Option Text → D
  double_of none = f.lit 0 1
  double_of (some t) = n.strtod t

  abbrev double_without_error : Option Text → Option D
  double_without_error none = none
  double_without_error (some t) = if n.errno t == 0 then some (n.strtod t) else none

module _ {D S : Type 0} ⦃f : Floating D⦄ ⦃fs : Files S⦄ ⦃n : AsciiDouble D⦄ where
  unfoldable pub get_double : S → Text → String → D
  get_double disk dir attribute = double_of (contents_of disk dir attribute)

  -- `none` is `FALSE`, which leaves the value of the caller alone.
  unfoldable pub get_double_with_error : S → Text → String → Option D
  get_double_with_error disk dir attribute = double_without_error (contents_of disk dir attribute)
