-- ===== src/Examples/Backlights.antt =====
-- A keyboard's light with ten levels, as src/up-kbd-backlight.c sees it in sysfs.
use upower.Prelude.{
  ◌≡◌, refl, Bool, true, false, List, [], ◌∷◌, ◌++◌, length, take, Option, none, some, arith,
  if◌then◌else◌,
}
use upower.Prelude.Int.{pos, negsuc}
use upower.Prelude.Text.{Text, codes, text_eq, has_part}
use upower.Prelude.Text.Decimal.{is_digit, atoi, print_int, atoi-print_int}
use upower.Storage.{Memory, memory_files}
use upower.Supply.Sysfs.{signed_int}
use upower.Backlight.{
  Descriptors, AsciiInteger, Backlight, init, find_light, brightness_read, find, register,
  set_brightness,
}
use upower.Backlight.Ready.{IsReady, register-IsReady}
use upower.Backlight.Brightness.{
  IsAttribute, ReadsPrinted, IsSetOrRefused, get_brightness-set_brightness,
}

-- The system has one file that can be opened, with this text.
instance abbrev one_file : Descriptors Text
one_file = record {
  open_rdwr = λ path text. (pos 7, text);
  open_rdonly = λ path text. (negsuc 0, text);
  read = λ fd n text. some (take n text);
  write = λ fd written text. (pos (length written), written ++ (10 ∷ []));
  close = λ fd text. text;
}

is_empty : Text → Bool
is_empty [] = true
is_empty (c ∷ cs) = false

instance abbrev plain_integer : AsciiInteger
unfolding is_empty
plain_integer = record {
  strtoll = λ t. (signed_int (atoi t), is_empty t);
  strtoull = λ t. (atoi t, is_empty t);
}

one_file-IsAttribute : IsAttribute Text
one_file-IsAttribute = record { read-write = λ fd text os n h. refl }

line-is_some : (t : Text) → is_empty (t ++ (10 ∷ [])) ≡ false
unfolding is_empty
line-is_some [] = refl
line-is_some (c ∷ cs) = refl

plain-ReadsPrinted : ReadsPrinted
unfolding is_digit plain_integer
plain-ReadsPrinted = record {
  strtoll-print_int = λ n h.
      rw (atoi-print_int n (10 ∷ []) (omega (arith, h)) (ground arith))
        (rw (line-is_some (print_int n)) (ground arith));
}

abbrev disk : Memory
disk = record {
  at = λ path.
      if text_eq path (codes "/sys/class/leds/a::kbd_backlight/max_brightness")
      then some (codes "9\n")
      else none;
}

abbrev new : Backlight Text
new = record { priv = init; os = codes "4\n"; signals = []; exported = false }

abbrev names : Option (List Text)
names = some (codes "a::capslock" ∷ codes "a::kbd_backlight" ∷ [])

abbrev registered : Backlight Text
registered = register disk names true new

registered_exported : registered.exported ≡ true
unfolding register find find_light brightness_read has_part atoi is_empty is_digit
registered_exported = refl

register-IsReady_example : IsReady registered
register-IsReady_example = register-IsReady disk names true new refl registered_exported

get_brightness-set_brightness_example :
    IsSetOrRefused registered (pos 12) (set_brightness registered (pos 12))
get_brightness-set_brightness_example =
    get_brightness-set_brightness registered (pos 12) register-IsReady_example one_file-IsAttribute
      plain-ReadsPrinted
