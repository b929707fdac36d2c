-- ===== src/Floating.antt =====
-- The floating-point types of C, `gdouble` and `gfloat`, as an interface: the checker has no
-- floats, so the model takes a type and the operations of it that the program uses.
use upower.Prelude.{ℕ, ◌*◌, ◌/◌, ◌^◌, ◌≤◌, ◌≡◌, refl, Bool, true, false, arith, if◌then◌else◌}
use upower.Prelude.Int.{ℤ, pos, negsuc, pos_part, ◌+ℤ◌, ◌-ℤ◌, ◌*ℤ◌, div_ℤ, leb_ℤ, ltb_ℤ, eqb_ℤ}

-- `lit p q` is the literal p/q, and `litf p q` the single-precision literal p/q, widened.
-- `narrow` rounds to single precision. `to_uint` and `to_int` are C's conversions to integers, which drop the fraction.
pub record Floating (D : Type 0) : Type 0 where
  pub lit : ℕ → ℕ → D
  pub litf : ℕ → ℕ → D
  pub of_nat : ℕ → D
  pub of_int : ℤ → D
  pub to_uint : D → ℕ
  pub to_int : D → ℤ
  pub add : D → D → D
  pub sub : D → D → D
  pub mul : D → D → D
  pub div : D → D → D
  pub neg : D → D
  pub lt : D → D → Bool
  pub le : D → D → Bool
  pub eq : D → D → Bool
  pub rint : D → D
  pub round : D → D
  pub narrow : D → D

infix 4 ◌≼◌ ◌≺◌
abbrev pub ◌≼◌ : {D : Type 0} ⦃f : Floating D⦄ → D → D → Type 0
◌≼◌ ⦃f⦄ x y = f.le x y ≡ true

abbrev pub ◌≺◌ : {D : Type 0} ⦃f : Floating D⦄ → D → D → Type 0
◌≺◌ ⦃f⦄ x y = f.lt x y ≡ true

-- What the comparisons promise, NaN included: NaN compares false with everything, so it meets
-- no premise below.
pub record IsOrdered (D : Type 0) ⦃f : Floating D⦄ : Type 0 where
  pub le_trans : (x y z : D) → x ≼ y → y ≼ z → x ≼ z
  pub lt-le_trans : (x y z : D) → x ≺ y → y ≼ z → x ≺ z

-- What rounding to a format keeps: the order of whole literals, and the whole numbers up to 2^24
-- in single precision.
pub record IsLiteral (D : Type 0) ⦃f : Floating D⦄ : Type 0 where
  pub lit-mono : (m n : ℕ) → m ≤ n → f.lt (f.lit n 1) (f.lit m 1) ≡ false
  pub litf_exact : (n : ℕ) → n ≤ 2 ^ 24 → f.litf n 1 ≡ f.lit n 1

-- `fabs`
abbrev pub fabs : {D : Type 0} ⦃f : Floating D⦄ → D → D
fabs ⦃f⦄ x = if f.lt x (f.lit 0 1) then f.neg x else x

-- `fmax` and `fmin`, which prefer a number to a NaN.
abbrev pub fmax : {D : Type 0} ⦃f : Floating D⦄ → D → D → D
fmax ⦃f⦄ x y = if f.eq x x then (if f.lt x y then y else x) else y

abbrev pub fmin : {D : Type 0} ⦃f : Floating D⦄ → D → D → D
fmin ⦃f⦄ x y = if f.eq x x then (if f.lt y x then y else x) else y

-- `CLAMP`
abbrev pub clamp : {D : Type 0} ⦃f : Floating D⦄ → D → D → D → D
clamp ⦃f⦄ x low high = if f.lt high x then high else if f.lt x low then low else x

-- A value that is no NaN equals itself.
abbrev pub IsNumber : {D : Type 0} ⦃f : Floating D⦄ → D → Type 0
IsNumber ⦃f⦄ x = f.eq x x ≡ true

-- Thousandths, as an instance in which the laws hold and the model can be run.
pub record Milli : Type 0 where
  pub thousandths : ℤ

abbrev milli : ℤ → Milli
milli z = record { thousandths = z }

instance abbrev pub milli_floating : Floating Milli
milli_floating = record {
  lit = λ p q. milli (pos (p * 1000 / q));
  litf = λ p q. milli (pos (p * 1000 / q));
  of_nat = λ n. milli (pos (n * 1000));
  of_int = λ z. milli (z *ℤ pos 1000);
  to_uint = λ x. pos_part x.thousandths / 1000;
  to_int = λ x. div_ℤ x.thousandths (pos 1000);
  add = λ x y. milli (x.thousandths +ℤ y.thousandths);
  sub = λ x y. milli (x.thousandths -ℤ y.thousandths);
  mul = λ x y. milli (div_ℤ (x.thousandths *ℤ y.thousandths) (pos 1000));
  div = λ x y. milli (div_ℤ (x.thousandths *ℤ pos 1000) y.thousandths);
  neg = λ x. milli (pos 0 -ℤ x.thousandths);
  lt = λ x y. ltb_ℤ x.thousandths y.thousandths;
  le = λ x y. leb_ℤ x.thousandths y.thousandths;
  eq = λ x y. eqb_ℤ x.thousandths y.thousandths;
  narrow = λ x. x;
  rint = λ x. milli (div_ℤ (x.thousandths +ℤ pos 500) (pos 1000) *ℤ pos 1000);
  round = λ x. milli (
      div_ℤ (x.thousandths +ℤ (if ltb_ℤ x.thousandths (pos 0) then negsuc 499 else pos 500))
        (pos 1000)
      *ℤ pos 1000);
}

pub milli-IsOrdered : IsOrdered Milli
milli-IsOrdered = record {
  le_trans = λ x y z h k. ground arith;
  lt-le_trans = λ x y z h k. ground arith;
}

pub milli-IsLiteral : IsLiteral Milli
milli-IsLiteral = record { lit-mono = λ m n h. ground arith; litf_exact = λ n h. refl }
