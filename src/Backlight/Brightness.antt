-- ===== src/Backlight/Brightness.antt =====
-- src/up-kbd-backlight.c: the brightness that clients set and read.
use upower.Prelude.{
  ℕ, suc, zero, ◌-◌, ◌^◌, ◌≤◌, ◌<◌, ◌≡◌, refl, ap, true, false, some, List, [], ◌∷◌, ◌++◌, length,
  length-append, take, Bool-cases, inl, inr, ◌⊎◌, arith,
}
use upower.Prelude.Int.{ℤ, pos, negsuc, ltb_ℤ, eqb_ℤ, eq_of_eqb_ℤ}
use upower.Prelude.Text.{Text}
use upower.Prelude.Text.Decimal.{print_int, length-print_int}
use upower.Backlight.{
  Descriptors, AsciiInteger, Backlight, Signal, Reply, brightness_changed,
  brightness_changed_with_source, get_brightness_reply, set_brightness_reply, generic_error, clamp,
  print_gint, brightness_of, brightness_read, get_brightness, brightness_write, set_brightness,
}
use upower.Backlight.Ready.{IsReady}

-- An attribute of sysfs: what was written as a whole is read with a line break behind it.
pub record IsAttribute (O : Type 0) ⦃d : Descriptors O⦄ : Type 0 where
  pub read-write :
      (fd : ℤ) (text : Text) (os : O) (n : ℕ)
      → (d.write fd text os).0 ≡ pos (length text)
      → d.read fd (suc n) (d.write fd text os).1 ≡ some (take (suc n) (text ++ (10 ∷ [])))

-- A number that was printed, in a line, is read.
pub record ReadsPrinted ⦃i : AsciiInteger⦄ : Type 0 where
  pub strtoll-print_int :
      (n : ℕ) → n < 2 ^ 31 → i.strtoll (print_int n ++ (10 ∷ [])) ≡ (pos n, false)

take-all : {A : Type 0} (n : ℕ) (xs : List A) → length xs ≤ n → take n xs ≡ xs
take-all zero [] h = refl
take-all zero (x ∷ xs) h = absurd (omega (arith, h))
take-all (suc n) [] h = refl
take-all (suc n) (x ∷ xs) h = ap (λ l. x ∷ l) (take-all n xs (omega (arith, h)))

-- A brightness within the limits.
abbrev IsBetween : ℤ → ℤ → ℕ → Type 0
IsBetween max x n = (x ≡ pos n) × (n < 2 ^ 31) × (ltb_ℤ max (pos n) ≡ false)

clamp-IsBetween :
    (value max : ℤ)
    → ltb_ℤ max (pos 0) ≡ false
    → ltb_ℤ (pos (2 ^ 31 - 1)) max ≡ false
    → (n : ℕ) × IsBetween max (clamp value (pos 0) max) n
clamp-IsBetween value (negsuc m) h k = absurd (ground arith)
clamp-IsBetween (pos n) (pos m) h k = elim (Bool-cases (ltb_ℤ (pos m) (pos n))) [
  | inl e ↦ (m, (rw e refl, ground arith, ground arith))
  | inr e ↦ (n, (rw e (ground arith), ground arith, e))
]
clamp-IsBetween (negsuc n) (pos m) h k = (0, (ground arith, ground arith, ground arith))

-- A line with a printed `gint` fits the buffer.
line-short : (n : ℕ) → n < 2 ^ 31 → length (print_int n ++ (10 ∷ [])) ≤ 15
line-short n h =
    let short = length-print_int n h in
    rw (length-append (print_int n) (10 ∷ [])) (omega (arith, short))

print_gint-pos : (n : ℕ) → n < 2 ^ 31 → print_gint (pos n) ≡ print_int n
print_gint-pos n h = ap print_int (omega (arith, h))

module _ ⦃i : AsciiInteger⦄ where
  brightness_of-print_int :
      (max : ℤ) (n : ℕ)
      → ReadsPrinted
      → n < 2 ^ 31
      → ltb_ℤ max (pos n) ≡ false
      → brightness_of max (some (take 15 (print_int n ++ (10 ∷ [])))) ≡ pos n
  brightness_of-print_int max n r h k =
      rw (take-all 15 (print_int n ++ (10 ∷ [])) (line-short n h))
        (rw (r.strtoll-print_int n h) (ground arith))

-- The signals of a client's change.
abbrev changes : ℤ → List Signal → List Signal
changes x signals = brightness_changed_with_source x "external" ∷ brightness_changed x ∷ signals

module _ {O : Type 0} ⦃d : Descriptors O⦄ ⦃i : AsciiInteger⦄ where
  -- What `set_brightness` comes to.
  abbrev pub IsSetOrRefused : Backlight O → ℤ → Backlight O × Reply → Type 0
  IsSetOrRefused b value (after, reply) =
      ((reply ≡ generic_error) × (after.signals ≡ b.signals))
      ⊎ ((reply ≡ set_brightness_reply)
          × (after.signals ≡ changes (clamp value (pos 0) b.priv.max_brightness) b.signals)
          × (get_brightness after
              ≡ get_brightness_reply (clamp value (pos 0) b.priv.max_brightness)))

  -- What was written as a whole is read again, whatever else happened to the object.
  get_brightness-written :
      (b : Backlight O) (signals : List Signal) (n : ℕ)
      → ltb_ℤ b.priv.fd (pos 0) ≡ false
      → n < 2 ^ 31
      → ltb_ℤ b.priv.max_brightness (pos n) ≡ false
      → IsAttribute O
      → ReadsPrinted
      → eqb_ℤ (d.write b.priv.fd (print_int n) b.os).0 (pos (length (print_int n))) ≡ true
      → get_brightness
          (record b { os = (d.write b.priv.fd (print_int n) b.os).1; signals = signals })
        ≡ get_brightness_reply (pos n)
  unfolding get_brightness brightness_read
  get_brightness-written b signals n opened small within attribute reads whole =
      let max = b.priv.max_brightness in
      let full = eq_of_eqb_ℤ _ _ whole in
      rw opened (
        rw (attribute.read-write b.priv.fd (print_int n) b.os 14 full)
          (rw (brightness_of-print_int max n reads small within) (ground arith)))

  -- A client that sets the brightness of a light that is ready is either refused, and nobody is told
  -- of a change; or the brightness that everybody is told and that is read then is the one that was
  -- asked for, brought between zero and the maximum. This needs that an attribute that was written
  -- as a whole is read back in a line, and that a printed number in a line is read as the number.
  pub get_brightness-set_brightness :
      (b : Backlight O) (value : ℤ)
      → IsReady b
      → IsAttribute O
      → ReadsPrinted
      → IsSetOrRefused b value (set_brightness b value)
  unfolding set_brightness brightness_write get_brightness brightness_read
  get_brightness-set_brightness b value ready attribute reads =
      let (n, (same, small, within)) =
        clamp-IsBetween value b.priv.max_brightness ready.maximum ready.is_int in
      let text = print_int n in
      rw ready.opened (
        rw same (
          rw (print_gint-pos n small)
            (elim (Bool-cases (eqb_ℤ (d.write b.priv.fd text b.os).0 (pos (length text)))) [
              | inl e ↦ rw e (
                  inr (
                    refl,
                    refl,
                    get_brightness-written b (changes (pos n) b.signals) n ready.opened small within
                        attribute reads e,
                  ))
              | inr e ↦ rw e (inl (refl, refl))
            ])))
