-- ===== src/Backlight/Ready.antt =====
-- src/up-kbd-backlight.c: the light that clients can reach.
use upower.Prelude.{
  ℕ, ◌≡◌, refl, ◌∙◌, Bool, true, false, ◌&&◌, if◌then◌else◌, ◌-◌, ◌%◌, ◌^◌, Option, none, some,
  List, Bool-cases, inl, inr, arith, if_both,
}
use upower.Prelude.Int.{ℤ, pos, negsuc, ltb_ℤ, eqb_ℤ}
use upower.Prelude.Text.{Text, codes}
use upower.Storage.{Files}
use upower.Supply.Sysfs.{signed_int}
use upower.Backlight.{
  Descriptors, AsciiInteger, Backlight, brightness_of, brightness_read, open_light, find_in,
  with_fd, with_max, light_of, find, register,
}

module _ {O : Type 0} where
  -- The file is open, and the maximum is no negative number, and a `gint`.
  pub record IsReady (b : Backlight O) : Type 0 where
    pub opened : ltb_ℤ b.priv.fd (pos 0) ≡ false
    pub maximum : ltb_ℤ b.priv.max_brightness (pos 0) ≡ false
    pub is_int : ltb_ℤ (pos (2 ^ 31 - 1)) b.priv.max_brightness ≡ false

  abbrev IsReadyIf : Backlight O × Bool → Type 0
  IsReadyIf (b, ret) = ret ≡ true → IsReady b

accepted :
    (x max : ℤ) (bad : Bool)
    → (bad ≡ false → ltb_ℤ max x ≡ false)
    → ltb_ℤ (if bad then negsuc 0 else x) (pos 0) ≡ false
    → ltb_ℤ max (if bad then negsuc 0 else x) ≡ false
accepted x max true k h = ground arith
accepted x max false k h = k refl

brightness_of-bounds :
    ⦃i : AsciiInteger⦄ (max : ℤ) (t : Option Text)
    → ltb_ℤ (brightness_of max t) (pos 0) ≡ false
    → ltb_ℤ max (brightness_of max t) ≡ false
brightness_of-bounds max none = λ h. ground arith
brightness_of-bounds ⦃i⦄ max (some t) = accepted (i.strtoll t).0 max _ λ k. ground arith

within : (x max : ℤ) → ltb_ℤ x (pos 0) ≡ false → ltb_ℤ max x ≡ false → ltb_ℤ max (pos 0) ≡ false
within x max h k = ground arith

signed_int-is_int : (n : ℕ) → ltb_ℤ (pos (2 ^ 31 - 1)) (signed_int (n % 2 ^ 32)) ≡ false
signed_int-is_int n = ground arith

module _ {O : Type 0} ⦃d : Descriptors O⦄ ⦃i : AsciiInteger⦄ where
  -- What is read is -1, or a brightness of the light, through an open file.
  brightness_read-bounds :
      (b : Backlight O) (fd : ℤ)
      → ltb_ℤ (brightness_read b fd) (pos 0) ≡ false
      → (ltb_ℤ fd (pos 0) ≡ false) × (ltb_ℤ b.priv.max_brightness (brightness_read b fd) ≡ false)
  unfolding brightness_read
  brightness_read-bounds b fd = elim (Bool-cases (ltb_ℤ fd (pos 0))) [
    | inl e ↦ rw e λ h. ground arith
    | inr e ↦ rw e λ h. (refl, brightness_of-bounds b.priv.max_brightness (d.read fd 15 b.os) h)
  ]

  open_light-IsReady :
      (path_now path_hw_changed : Text) (b : Backlight O) (contents : Option Text)
      → IsReadyIf (open_light path_now path_hw_changed b contents)
  open_light-IsReady path_now path_hw_changed b none = λ h. ground arith
  open_light-IsReady path_now path_hw_changed b (some contents) =
      let (value, nothing) = i.strtoull contents in
      let sized = with_max b (signed_int (value % 2 ^ 32)) in
      let (fd, os) = d.open_rdwr path_now b.os in
      let opened = with_fd sized fd os in
      if_both IsReadyIf (eqb_ℤ sized.priv.max_brightness (pos 0) && nothing)
        (λ h. absurd (ground arith))
        (elim (Bool-cases (ltb_ℤ (brightness_read opened fd) (pos 0))) [
          | inl e ↦ rw e λ h. ground arith
          | inr e ↦ rw e λ h.
              let (is_open, small) = brightness_read-bounds opened fd e in
              record {
                opened = is_open;
                maximum = within (brightness_read opened fd) sized.priv.max_brightness e small;
                is_int = signed_int-is_int value;
              }
        ])

  open_light-exported :
      (path_now path_hw_changed : Text) (b : Backlight O) (contents : Option Text)
      → (open_light path_now path_hw_changed b contents).0.exported ≡ b.exported
  open_light-exported path_now path_hw_changed b none = refl
  open_light-exported path_now path_hw_changed b (some contents) =
      let (value, nothing) = i.strtoull contents in
      let sized = with_max b (signed_int (value % 2 ^ 32)) in
      let (fd, os) = d.open_rdwr path_now b.os in
      let opened = with_fd sized fd os in
      if_both (λ (r : Backlight O × Bool). r.0.exported ≡ b.exported)
        (eqb_ℤ sized.priv.max_brightness (pos 0) && nothing) refl
        (if_both (λ (r : Backlight O × Bool). r.0.exported ≡ b.exported)
          (ltb_ℤ (brightness_read opened fd) (pos 0)) refl refl)

module _ {O : Type 0} where
  exported-IsReady :
      (r : Backlight O × Bool) (taken : Bool)
      → IsReadyIf r
      → r.0.exported ≡ false
      → (if r.1 then record r.0 { exported = taken } else r.0).exported ≡ true
      → IsReady (if r.1 then record r.0 { exported = taken } else r.0)
  exported-IsReady (b, true) taken ready hidden h =
      let l = ready refl in record { opened = l.opened; maximum = l.maximum; is_int = l.is_int }
  exported-IsReady (b, false) taken ready hidden h = absurd (ground arith)

module _ {O S : Type 0} ⦃d : Descriptors O⦄ ⦃i : AsciiInteger⦄ ⦃fs : Files S⦄ where
  find_in-IsReady :
      (disk : S) (b : Backlight O) (name : Option Text) → IsReadyIf (find_in disk b name)
  find_in-IsReady disk b none = λ h. absurd (ground arith)
  find_in-IsReady disk b (some name) =
      let dir_path = fs.build_filename (codes "/sys/class/leds") name in
      open_light-IsReady (fs.build_filename dir_path (codes "brightness"))
        (fs.build_filename dir_path (codes "brightness_hw_changed")) b
        (fs.get_contents (fs.build_filename dir_path (codes "max_brightness")) disk)

  find_in-exported :
      (disk : S) (b : Backlight O) (name : Option Text)
      → (find_in disk b name).0.exported ≡ b.exported
  find_in-exported disk b none = refl
  find_in-exported disk b (some name) =
      let dir_path = fs.build_filename (codes "/sys/class/leds") name in
      open_light-exported (fs.build_filename dir_path (codes "brightness"))
        (fs.build_filename dir_path (codes "brightness_hw_changed")) b
        (fs.get_contents (fs.build_filename dir_path (codes "max_brightness")) disk)

  -- A light that clients can reach after its start is ready: its file is open, and its maximum
  -- brightness is a `gint` that is not negative.
  pub register-IsReady :
      (disk : S) (names : Option (List Text)) (taken : Bool) (b : Backlight O)
      → b.exported ≡ false
      → (register disk names taken b).exported ≡ true
      → IsReady (register disk names taken b)
  unfolding register find
  register-IsReady disk names taken b hidden =
      let unopened = with_fd b (negsuc 0) b.os in
      exported-IsReady (find_in disk unopened (light_of names)) taken
        (find_in-IsReady disk unopened (light_of names))
        (find_in-exported disk unopened (light_of names) ∙ hidden)
