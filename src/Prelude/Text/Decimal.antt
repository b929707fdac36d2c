-- ===== src/Prelude/Text/Decimal.antt =====
-- C's `printf ("%i", …)` and `atoi`, on `guint` values.
use Prim.Native.Nat.{ℕ, suc, zero, ◌+◌, ◌-◌, ◌*◌, ◌/◌, ◌%◌, ◌^◌, ◌≤◌, ◌<◌}
use mathlib.Core.Bool.{Bool, true, false, ◌&&◌, ◌||◌}
use mathlib.Core.Logic.{inl, inr, ◌⊎◌}
use mathlib.Core.Path.{◌≡◌, refl, sym, ◌∙◌, ap}
use mathlib.Core.List.{[], ◌∷◌, ◌++◌, append_assoc}
use native.Mathlib.Omega.{arith}
use upower.Prelude.Tests.{lt→ltb, leb, ltb, ◌==◌, Bool-cases, if◌then◌else◌}
use upower.Prelude.Lists.{length, length-append, All, All-append}
use upower.Prelude.Text.{Text, codes}

unfoldable pub is_digit : ℕ → Bool
is_digit c = leb b'0' c && leb c b'9'

-- `isspace`
abbrev is_space : ℕ → Bool
is_space c = c == 32 || (leb 9 c && leb c 13)

-- The digits of a number, the last one first taken off.
digits : ℕ → ℕ → Text
digits zero n = []
digits (suc fuel) n =
    let front = digits fuel (n / 10) in
    if ltb n 10 then (n + b'0') ∷ [] else front ++ ((n % 10 + b'0') ∷ [])

-- A number has fewer digits than it counts, so the fuel is enough.
pub print_nat : ℕ → Text
unfolding digits
print_nat n = digits (suc n) n

read_digits : ℕ → Text → ℕ
read_digits acc [] = acc
read_digits acc (c ∷ cs) =
    let more = read_digits (acc * 10 + (c - b'0')) cs in if is_digit c then more else acc

-- A `guint` printed with "%i": the upper half of the range prints as negative numbers.
unfoldable pub print_int : ℕ → Text
unfolding print_nat
print_int n = if ltb n (2 ^ 31) then print_nat n else b'-' ∷ print_nat (2 ^ 32 - n)

negate : ℕ → ℕ
negate n = (2 ^ 32 - n % 2 ^ 32) % 2 ^ 32

signed : Text → ℕ
signed [] = 0
signed (c ∷ cs) =
    if c == b'-'
    then negate (read_digits 0 cs)
    else if c == b'+'
    then read_digits 0 cs % 2 ^ 32
    else read_digits 0 (c ∷ cs) % 2 ^ 32

-- `atoi`, converted to `guint`. A number outside `int` is reduced, as the C library of Linux does.
unfoldable pub atoi : Text → ℕ
unfolding signed read_digits negate is_digit
atoi [] = 0
atoi (c ∷ cs) = let rest = atoi cs in if is_space c then rest else signed (c ∷ cs)

-- Nothing that a number continues.
abbrev pub Ends : Text → Type 0
Ends [] = Unit
Ends (c ∷ cs) = is_digit c ≡ false

read_digits-digits :
    (fuel n : ℕ) (rest : Text)
    → n < fuel
    → read_digits 0 (digits fuel n ++ rest) ≡ read_digits n rest
unfolding digits read_digits is_digit
read_digits-digits zero n rest h = absurd (omega arith)
read_digits-digits (suc fuel) n rest h = elim (Bool-cases (ltb n 10)) [
  | inl small ↦ rw small (ground arith)
  | inr large ↦ rw large (
      rw (append_assoc (digits fuel (n / 10)) ((n % 10 + b'0') ∷ []) rest)
        (read_digits-digits fuel (n / 10) ((n % 10 + b'0') ∷ rest) (ground arith) ∙ ground arith))
]

-- The first byte of a printed number is a digit.
digits_head :
    (fuel n : ℕ) (rest : Text)
    → n < fuel
    → (c : ℕ) × (cs : Text) × (digits fuel n ++ rest ≡ c ∷ cs) × (is_digit c ≡ true)
unfolding digits is_digit
digits_head zero n rest h = absurd (omega arith)
digits_head (suc fuel) n rest h = elim (Bool-cases (ltb n 10)) [
  | inl small ↦ (n + b'0', rest, rw small refl, ground arith)
  | inr large ↦
      let (c, cs, e, d) = digits_head fuel (n / 10) ((n % 10 + b'0') ∷ rest) (ground arith) in
      (c, cs, rw large (append_assoc (digits fuel (n / 10)) ((n % 10 + b'0') ∷ []) rest ∙ e), d)
]

read_digits-Ends : (n : ℕ) (rest : Text) → Ends rest → read_digits n rest ≡ n
unfolding read_digits
read_digits-Ends n [] h = refl
read_digits-Ends n (c ∷ cs) h = rw h

signed_digit :
    (c : ℕ) (cs : Text) → is_digit c ≡ true → atoi (c ∷ cs) ≡ read_digits 0 (c ∷ cs) % 2 ^ 32
unfolding atoi
signed_digit c cs h = ground arith

read_back : (n : ℕ) (rest : Text) → Ends rest → read_digits 0 (digits (suc n) n ++ rest) ≡ n
read_back n rest e = read_digits-digits (suc n) n rest (omega arith) ∙ read_digits-Ends n rest e

atoi-digits : (n : ℕ) (rest : Text) → n < 2 ^ 32 → Ends rest → atoi (digits (suc n) n ++ rest) ≡ n
atoi-digits n rest h e =
    let (c, cs, p, d) = digits_head (suc n) n rest (omega arith) in
    let value : atoi (c ∷ cs) ≡ n =
      signed_digit c cs d
      ∙ ap (λ t. read_digits 0 t % 2 ^ 32) (sym p)
      ∙ ap (λ k. k % 2 ^ 32) (read_back n rest e)
      ∙ omega arith in
    ap atoi p ∙ value

negate_sub : (n : ℕ) → 2 ^ 31 ≤ n → n < 2 ^ 32 → negate (2 ^ 32 - n) ≡ n
unfolding negate
negate_sub n h k = omega arith

atoi_minus : (t : Text) → atoi (b'-' ∷ t) ≡ negate (read_digits 0 t)
unfolding atoi
atoi_minus t = refl

-- `atoi` reads back every `guint` that "%i" prints, in front of anything that is no digit.
pub atoi-print_int : (n : ℕ) (rest : Text) → n < 2 ^ 32 → Ends rest → atoi (print_int n ++ rest) ≡ n
unfolding print_int
atoi-print_int n rest h e = elim (Bool-cases (ltb n (2 ^ 31))) [
  | inl low ↦ rw low (atoi-digits n rest h e)
  | inr high ↦ rw high (
      atoi_minus (digits (suc (2 ^ 32 - n)) (2 ^ 32 - n) ++ rest)
      ∙ ap negate (read_back (2 ^ 32 - n) rest e)
      ∙ negate_sub n (ground arith) h)
]

-- Bytes of a printed number: digits and the sign.
abbrev pub IsNumeral : ℕ → Type 0
IsNumeral c = (is_digit c ≡ true) ⊎ (c ≡ b'-')

digits-IsNumeral : (fuel n : ℕ) → All IsNumeral (digits fuel n)
unfolding digits is_digit
digits-IsNumeral zero n = tt
digits-IsNumeral (suc fuel) n = ground (
  arith,
  All-append IsNumeral (digits fuel (n / 10)) ((n % 10 + b'0') ∷ [])
      (digits-IsNumeral fuel (n / 10)),
)

-- A printed number holds nothing but digits and the sign.
pub print_int-IsNumeral : (n : ℕ) → All IsNumeral (print_int n)
unfolding print_int
print_int-IsNumeral n =
    ground (arith, digits-IsNumeral (suc n) n, digits-IsNumeral (suc (2 ^ 32 - n)) (2 ^ 32 - n))

-- The powers of ten.
abbrev pub pow_ten : ℕ → ℕ
pow_ten zero = 1
pow_ten (suc k) = 10 * pow_ten k

length-digits : (fuel n k : ℕ) → n < pow_ten (suc k) → length (digits fuel n) ≤ suc k
unfolding digits
length-digits zero n k h = omega arith
length-digits (suc fuel) n zero h = rw (lt→ltb n 10 (omega (arith, h))) (omega arith)
length-digits (suc fuel) n (suc k) h =
    let front = length-digits fuel (n / 10) k (omega (arith, h)) in
    elim (Bool-cases (ltb n 10)) [
      | inl small ↦ rw small (omega arith)
      | inr large ↦
          rw (large, length-append (digits fuel (n / 10)) ((n % 10 + b'0') ∷ []))
            (omega (arith, front))
    ]

-- A number that fits a `gint` has ten digits at most.
pub length-print_int : (n : ℕ) → n < 2 ^ 31 → length (print_int n) ≤ 10
unfolding print_int
length-print_int n h = rw (lt→ltb n (2 ^ 31) h) (length-digits (suc n) n 9 (omega (arith, h)))

print_negative : print_int (2 ^ 32 - 7) ≡ codes "-7"
unfolding print_int
print_negative = refl

read_negative : atoi (codes " -7\t") ≡ 2 ^ 32 - 7
unfolding atoi
read_negative = refl
