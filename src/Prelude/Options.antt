-- ===== src/Prelude/Options.antt =====
-- What a value holds of, if there is one.
use mathlib.Core.Path.{◌≡◌, ap, subst}
use mathlib.Core.Option.{Option, none, some}
use native.Mathlib.Omega.{arith}

module _ {ℓ} {A : Type ℓ} where
  abbrev or_else : A → Option A → A
  or_else a none = a
  or_else a (some b) = b

  pub some_inj : (a : A) {b : A} → some a ≡ some b → a ≡ b
  some_inj a e = ap (or_else a) e

-- Whatever comes out has the property.
pub record Always {ℓ κ} {A : Type ℓ} (P : A → Type κ) (o : Option A) : Type (ℓ ⊔ κ) where
  pub always : (a : A) → o ≡ some a → P a

module _ {ℓ κ} {A : Type ℓ} (P : A → Type κ) where
  pub none-Always : Always P none
  none-Always = record { always = λ a e. absurd (ground (arith, e)) }

  pub some-Always : (a : A) → P a → Always P (some a)
  some-Always a h = record { always = λ b e. subst P (ap (or_else a) e) h }
