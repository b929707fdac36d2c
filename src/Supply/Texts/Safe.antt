-- ===== src/Supply/Texts/Safe.antt =====
-- src/linux/up-device-supply.c: what is left of a text that is no UTF-8.
use upower.Prelude.{
  ℕ, zero, suc, ◌+◌, ◌<◌, ◌≡◌, refl, ◌≢◌, ◌∙◌, sym, true, false, not, [], ◌∷◌, ◌++◌, length,
  length-append, get_or-append, set-append, take-append, ap, get_or, set, take, All, Bool-cases,
  inl, inr, arith, ◌==◌, if◌then◌else◌,
}
use mathlib.Core.List.{append_assoc, append-nil}
use upower.Prelude.Text.{Text}
use upower.Supply.{AsciiText}
use upower.Supply.Texts.{shunt, make_safe_text}

module _ ⦃a : AsciiText⦄ where
  -- The printable characters of a text, in their order.
  unfoldable pub printable : Text → Text
  printable [] = []
  printable (c ∷ cs) = let rest = printable cs in if a.isprint c then c ∷ rest else rest

  -- The buffer of the loop is what it has kept, then what it has left behind, then what it has not
  -- read yet.
  record IsSplit (text : Text) (i idx : ℕ) (kept left rest : Text) : Type 0 where
    whole : text ≡ kept ++ (left ++ rest)
    reads : i ≡ length kept + length left
    writes : idx ≡ length kept

  -- What is left behind when the next character is kept.
  abbrev shifted : Text → ℕ → Text
  shifted [] c = []
  shifted (l ∷ ls) c = ls ++ (c ∷ [])

  snoc : (xs : Text) (c : ℕ) (ys : Text) → xs ++ (c ∷ ys) ≡ (xs ++ (c ∷ [])) ++ ys
  snoc xs c ys = sym (append_assoc xs (c ∷ []) ys)

  get_or-split :
      (text : Text) (i idx : ℕ) (kept left rest : Text)
      → IsSplit text i idx kept left rest
      → get_or text i 0 ≡ get_or rest 0 0
  get_or-split text i idx kept left rest s =
      rw (s.whole, s.reads, sym (append_assoc kept left rest), sym (length-append kept left))
        (get_or-append (kept ++ left) rest 0)

  leave-IsSplit :
      (text : Text) (i idx : ℕ) (kept left : Text) (c : ℕ) (rest : Text)
      → IsSplit text i idx kept left (c ∷ rest)
      → IsSplit text (i + 1) idx kept (left ++ (c ∷ [])) rest
  leave-IsSplit text i idx kept left c rest s = record {
    whole = s.whole ∙ ap (λ l. kept ++ l) (snoc left c rest);
    reads = omega (arith, s.reads, length-append left (c ∷ []));
    writes = s.writes;
  }

  keep-IsSplit :
      (text : Text) (i idx : ℕ) (kept left : Text) (c : ℕ) (rest : Text)
      → IsSplit text i idx kept left (c ∷ rest)
      → IsSplit
          (if not (idx == i) then set text idx c else text)
          (i + 1)
          (idx + 1)
          (kept ++ (c ∷ []))
          (shifted left c)
          rest
  keep-IsSplit text i idx kept [] c rest s = record {
    whole = rw (same idx i (omega (arith, s.reads, s.writes))) (s.whole ∙ snoc kept c rest);
    reads = omega (arith, s.reads, length-append kept (c ∷ []));
    writes = omega (arith, s.writes, length-append kept (c ∷ []));
  }
    where
      same : (x y : ℕ) → x ≡ y → (x == y) ≡ true
      same x y h = ground (arith, h)
  keep-IsSplit text i idx kept (l ∷ ls) c rest s = record {
    whole =
        rw (other idx i (omega (arith, s.reads, s.writes)), s.whole, s.writes)
          (set-append kept l (ls ++ (c ∷ rest)) c
            ∙ snoc kept c (ls ++ (c ∷ rest))
            ∙ ap (λ r. (kept ++ (c ∷ [])) ++ r) (snoc ls c rest));
    reads = omega (arith, s.reads, length-append kept (c ∷ []), length-append ls (c ∷ []));
    writes = omega (arith, s.writes, length-append kept (c ∷ []));
  }
    where
      other : (x y : ℕ) → x < y → (x == y) ≡ false
      other x y h = ground (arith, h)

  live : (c : ℕ) → c ≢ 0 → (c == 0) ≡ false
  live c h = ground (arith, h)

  shunt-printable :
      (fuel : ℕ) (text : Text) (i idx : ℕ) (kept left rest : Text)
      → IsSplit text i idx kept left rest
      → All (λ c. c ≢ 0) rest
      → length rest < fuel
      → let (moved, next) = shunt fuel text i idx in take next moved ≡ kept ++ printable rest
  unfolding shunt printable
  shunt-printable zero text i idx kept left rest s h k = absurd (omega (arith, k))
  shunt-printable (suc fuel) text i idx kept left [] s h k =
      rw (get_or-split text i idx kept left [] s, s.whole, s.writes)
        (take-append kept (left ++ []) ∙ sym (append-nil kept))
  shunt-printable (suc fuel) text i idx kept left (c ∷ rest) s (c_ne, h) k =
      elim (Bool-cases (a.isprint c)) [
        | inl print ↦
            rw (get_or-split text i idx kept left (c ∷ rest) s, print, live c c_ne)
              (shunt-printable fuel _ (i + 1) (idx + 1) (kept ++ (c ∷ [])) (shifted left c) rest
                  (keep-IsSplit text i idx kept left c rest s) h (omega (arith, k))
                ∙ sym (snoc kept c (printable rest)))
        | inr skip ↦
            rw (get_or-split text i idx kept left (c ∷ rest) s, skip, live c c_ne)
              (shunt-printable fuel text (i + 1) idx kept (left ++ (c ∷ [])) rest
                (leave-IsSplit text i idx kept left c rest s) h (omega (arith, k)))
      ]

  -- A text that is no UTF-8 keeps its printable characters, in their order, and nothing else; any
  -- other text is left as it is.
  pub make_safe_text-printable :
      (t : Text)
      → All (λ c. c ≢ 0) t
      → make_safe_text t ≡ (if a.utf8_validate t then t else printable t)
  unfolding make_safe_text
  make_safe_text-printable t h =
      rw
        (shunt-printable (length t + 1) t 0 0 [] [] t
          (record { whole = refl; reads = omega arith; writes = omega arith }) h (omega arith))
        refl
