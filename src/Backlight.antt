-- ===== src/Backlight.antt =====
-- src/up-kbd-backlight.c: the brightness of the keyboard's light, which clients read and set.
pub mod Ready
pub mod Brightness
use upower.Prelude.{
  ℕ, ◌-◌, ◌%◌, ◌^◌, ◌≡◌, Bool, true, false, not, ◌&&◌, ◌||◌, List, [], ◌∷◌, ◌++◌, length, take,
  Option, none, some, String, if◌then◌else◌,
}
use upower.Prelude.Int.{ℤ, pos, negsuc, ltb_ℤ, eqb_ℤ}
use upower.Prelude.Text.{Text, codes, has_part}
use upower.Prelude.Text.Decimal.{print_int}
use upower.Storage.{Files}
use upower.Supply.Sysfs.{signed_int}

-- The files that the system keeps open, by descriptors. `open` gives a negative number where it
-- fails. `read` and `write` follow an `lseek` to the start; `read` gives `none` where it reads
-- nothing, and `write` the number of bytes.
pub record Descriptors (O : Type 0) : Type 0 where
  pub open_rdwr : Text → O → ℤ × O
  pub open_rdonly : Text → O → ℤ × O
  pub read : ℤ → ℕ → O → Option Text
  pub write : ℤ → Text → O → ℤ × O
  pub close : ℤ → O → O

-- `g_ascii_strtoll` and `g_ascii_strtoull`, each with whether it found no number.
pub record AsciiInteger : Type 0 where
  pub strtoll : Text → ℤ × Bool
  pub strtoull : Text → ℕ × Bool

-- `UpKbdBacklightPrivate`; of the channel it is kept whether there is one.
pub record Private : Type 0 where
  pub fd : ℤ
  pub fd_hw_changed : ℤ
  pub channel_hw_changed : Bool
  pub max_brightness : ℤ

-- The two signals for a change, `source` being who made it.
pub data Signal : Type 0 where
  brightness_changed : ℤ → Signal
  brightness_changed_with_source : ℤ → String → Signal

-- What a client gets for its call.
pub data Reply : Type 0 where
  get_brightness_reply : ℤ → Reply
  get_max_brightness_reply : ℤ → Reply
  set_brightness_reply : Reply
  generic_error : Reply

-- The object, the system's files, and the signals that were sent, the last one first. `exported` is
-- whether clients can reach it.
pub record Backlight (O : Type 0) : Type 0 where
  pub priv : Private
  pub os : O
  pub signals : List Signal
  pub exported : Bool

-- A private structure is zeroed.
abbrev pub init : Private
init = record {
  fd = pos 0;
  fd_hw_changed = pos 0;
  channel_hw_changed = false;
  max_brightness = pos 0;
}

abbrev pub clamp : ℤ → ℤ → ℤ → ℤ
clamp x low high = if ltb_ℤ high x then high else if ltb_ℤ x low then low else x

-- `printf` with "%i" of a `gint`.
abbrev print_gint : ℤ → Text
print_gint (pos n) = print_int (n % 2 ^ 32)
print_gint (negsuc n) = print_int ((2 ^ 32 - (n % 2 ^ 32)) - 1)

module _ {O : Type 0} where
  abbrev pub emit_change : ℤ → String → Backlight O → Backlight O
  emit_change value source b = record b {
    signals = brightness_changed_with_source value source ∷ brightness_changed value ∷ b.signals;
  }

module _ ⦃i : AsciiInteger⦄ where
  -- A text that is no number, or no brightness of this light, gives -1.
  abbrev pub brightness_of : ℤ → Option Text → ℤ
  brightness_of max_brightness none = negsuc 0
  brightness_of max_brightness (some buf) =
      let (brightness, nothing) = i.strtoll buf in
      if ltb_ℤ brightness (pos 0) || (ltb_ℤ max_brightness brightness || nothing)
      then negsuc 0
      else brightness

module _ {O : Type 0} ⦃d : Descriptors O⦄ ⦃i : AsciiInteger⦄ where
  -- The buffer has 16 bytes, the last one for the end of the text.
  unfoldable pub brightness_read : Backlight O → ℤ → ℤ
  brightness_read b fd =
      if ltb_ℤ fd (pos 0) then negsuc 0 else brightness_of b.priv.max_brightness (d.read fd 15 b.os)

  unfoldable pub get_brightness : Backlight O → Reply
  get_brightness b =
      let brightness = brightness_read b b.priv.fd in
      if ltb_ℤ brightness (pos 0) then generic_error else get_brightness_reply brightness

  -- The light was changed by a key. The result is whether the watch stays.
  unfoldable pub event_io : Backlight O → Bool → Backlight O × Bool
  event_io b urgent =
      if not urgent
      then (b, false)
      else (emit_change (brightness_read b b.priv.fd_hw_changed) "internal" b, true)

module _ {O : Type 0} ⦃d : Descriptors O⦄ where
  unfoldable pub brightness_write : Backlight O → ℤ → Backlight O × Bool
  brightness_write b value =
      let clamped = clamp value (pos 0) b.priv.max_brightness in
      let text = print_gint clamped in
      let (retval, os) = d.write b.priv.fd text b.os in
      if ltb_ℤ b.priv.fd (pos 0)
      then (b, false)
      else if not (eqb_ℤ retval (pos (length text)))
      then (record b { os = os }, false)
      else (emit_change clamped "external" (record b { os = os }), true)

  unfoldable pub set_brightness : Backlight O → ℤ → Backlight O × Reply
  set_brightness b value =
      let (written, ret) = brightness_write b value in
      (written, if ret then set_brightness_reply else generic_error)

module _ {O : Type 0} where
  unfoldable pub get_max_brightness : Backlight O → Reply
  get_max_brightness b = get_max_brightness_reply b.priv.max_brightness

-- The first light of a keyboard.
unfoldable pub find_light : List Text → Option Text
find_light [] = none
find_light (name ∷ names) =
    let later = find_light names in
    if has_part (codes "kbd_backlight") name then some name else later

module _ {O : Type 0} where
  abbrev with_fd : Backlight O → ℤ → O → Backlight O
  with_fd b fd os = record b { priv = record b.priv { fd = fd }; os = os }

  abbrev with_max : Backlight O → ℤ → Backlight O
  with_max b max = record b { priv = record b.priv { max_brightness = max } }

module _ {O : Type 0} ⦃d : Descriptors O⦄ where
  -- The watch of the light's own changes, where the system has them. `g_io_add_watch` is not kept.
  abbrev watch_hw_changed : Text → Backlight O → Backlight O
  watch_hw_changed path b =
      let (fd, os) = d.open_rdonly path b.os in
      record b {
        priv = record b.priv {
          fd_hw_changed = fd;
          channel_hw_changed = if ltb_ℤ fd (pos 0) then b.priv.channel_hw_changed else true;
        };
        os = os;
      }

module _ {O : Type 0} ⦃d : Descriptors O⦄ ⦃i : AsciiInteger⦄ where
  -- From the maximum on, with the paths of the two files that are opened.
  abbrev open_light : Text → Text → Backlight O → Option Text → Backlight O × Bool
  open_light path_now path_hw_changed b none = (b, false)
  open_light path_now path_hw_changed b (some contents) =
      let (value, nothing) = i.strtoull contents in
      let sized = with_max b (signed_int (value % 2 ^ 32)) in
      let (fd, os) = d.open_rdwr path_now b.os in
      let opened = with_fd sized fd os in
      if eqb_ℤ sized.priv.max_brightness (pos 0) && nothing
      then (sized, false)
      else if ltb_ℤ (brightness_read opened fd) (pos 0)
      then (opened, false)
      else (watch_hw_changed path_hw_changed opened, true)

-- The names of the directory; `none` if it cannot be opened.
abbrev light_of : Option (List Text) → Option Text
light_of none = none
light_of (some names) = find_light names

module _ {O S : Type 0} ⦃d : Descriptors O⦄ ⦃i : AsciiInteger⦄ ⦃fs : Files S⦄ where
  abbrev find_in : S → Backlight O → Option Text → Backlight O × Bool
  find_in disk b none = (b, false)
  find_in disk b (some name) =
      let dir_path = fs.build_filename (codes "/sys/class/leds") name in
      open_light (fs.build_filename dir_path (codes "brightness"))
        (fs.build_filename dir_path (codes "brightness_hw_changed")) b
        (fs.get_contents (fs.build_filename dir_path (codes "max_brightness")) disk)

  unfoldable pub find : S → Option (List Text) → Backlight O → Backlight O × Bool
  unfolding find_light
  find disk names b = find_in disk (with_fd b (negsuc 0) b.os) (light_of names)

  -- A light that was found is exported, if the bus takes it.
  unfoldable pub register : S → Option (List Text) → Bool → Backlight O → Backlight O
  register disk names taken b =
      let (found, ret) = find disk names b in
      if ret then record found { exported = taken } else found

module _ {O : Type 0} ⦃d : Descriptors O⦄ where
  -- The shutdown of the channel closes its descriptor, which is then closed once more.
  unfoldable pub finalize : Backlight O → O
  finalize b =
      let p = b.priv in
      let channel = if p.channel_hw_changed then d.close p.fd_hw_changed b.os else b.os in
      let changed =
        if ltb_ℤ p.fd_hw_changed (pos 0) then channel else d.close p.fd_hw_changed channel in
      if ltb_ℤ p.fd (pos 0) then changed else d.close p.fd changed
