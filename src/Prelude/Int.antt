-- ===== src/Prelude/Int.antt =====
-- Signed integers over the native numbers, under the library's names (its ℤ stands on the unary ℕ).
use Prim.Native.Nat.{ℕ, suc, ◌+◌, ◌-◌, ◌*◌, ◌/◌, ◌≤◌, ◌<◌}
use mathlib.Core.Path.{◌≡◌, ap}
use mathlib.Core.Logic.{◌⊎◌}
use mathlib.Core.Bool.{Bool}
use native.Mathlib.Nat.{le-div_iff_mul-le, div-mul-le_self, le_trans, mul-le-mul_left}
use native.Mathlib.Omega.{arith}
use poly_zq_trading.Prelude.Tests.{ltb, leb, if◌then◌else◌}

-- `negsuc n` is -(n + 1).
pub data ℤ : Type 0 where
  pos : ℕ → ℤ
  negsuc : ℕ → ℤ

abbrev pub pos_part : ℤ → ℕ
pos_part (pos n) = n
pos_part (negsuc n) = 0

abbrev pub neg_part : ℤ → ℕ
neg_part (pos n) = 0
neg_part (negsuc n) = suc n

-- a - b, as an integer.
abbrev pub sub_ℕ : ℕ → ℕ → ℤ
sub_ℕ a b = if leb b a then pos (a - b) else negsuc (b - a - 1)

infixl 65 ◌+ℤ◌ ◌-ℤ◌
infix 50 ◌≤ℤ◌ ◌<ℤ◌
unfoldable pub ◌+ℤ◌ : ℤ → ℤ → ℤ
a +ℤ b = sub_ℕ (pos_part a + pos_part b) (neg_part a + neg_part b)

unfoldable pub ◌-ℤ◌ : ℤ → ℤ → ℤ
a -ℤ b = sub_ℕ (pos_part a + neg_part b) (neg_part a + pos_part b)

infixl 70 ◌*ℤ◌
unfoldable pub ◌*ℤ◌ : ℤ → ℤ → ℤ
a *ℤ b =
    sub_ℕ (pos_part a * pos_part b + neg_part a * neg_part b)
      (pos_part a * neg_part b + neg_part a * pos_part b)

-- A count times an integer.
unfoldable pub scale : ℕ → ℤ → ℤ
scale n a = sub_ℕ (n * pos_part a) (n * neg_part a)

abbrev pub ◌≤ℤ◌ : ℤ → ℤ → Type 0
a ≤ℤ b = pos_part a + neg_part b ≤ pos_part b + neg_part a

abbrev pub ◌<ℤ◌ : ℤ → ℤ → Type 0
a <ℤ b = pos_part a + neg_part b < pos_part b + neg_part a

abbrev pub ltb_ℤ : ℤ → ℤ → Bool
ltb_ℤ a b = ltb (pos_part a + neg_part b) (pos_part b + neg_part a)

abbrev pub leb_ℤ : ℤ → ℤ → Bool
leb_ℤ a b = leb (pos_part a + neg_part b) (pos_part b + neg_part a)

abbrev pub min_ℤ : ℤ → ℤ → ℤ
min_ℤ a b = if leb_ℤ a b then a else b

-- `abs(a)`, a count.
abbrev pub abs : ℤ → ℕ
abs a = pos_part a + neg_part a

-- Division by a positive count, rounded towards minus infinity.
unfoldable pub floor_div : ℤ → ℕ → ℤ
floor_div (pos n) d = pos (n / d)
floor_div (negsuc n) d = negsuc (n / d)

pub +ℤ_parts :
    (a b : ℤ)
    → pos_part (a +ℤ b) + neg_part a + neg_part b ≡ neg_part (a +ℤ b) + pos_part a + pos_part b
unfolding ◌+ℤ◌
+ℤ_parts a b = ground arith

pub -ℤ_parts :
    (a b : ℤ)
    → pos_part (a -ℤ b) + neg_part a + pos_part b ≡ neg_part (a -ℤ b) + pos_part a + neg_part b
unfolding ◌-ℤ◌
-ℤ_parts a b = ground arith

pub scale_parts :
    (n : ℕ) (a : ℤ) → pos_part (scale n a) + n * neg_part a ≡ neg_part (scale n a) + n * pos_part a
unfolding scale
scale_parts n a = ground arith

pub eq_of_parts : (a b : ℤ) → pos_part a + neg_part b ≡ pos_part b + neg_part a → a ≡ b
eq_of_parts a b h = ground arith

pub ruleset int_laws = (arith, +ℤ_parts, -ℤ_parts, scale_parts, eq_of_parts)

pub +ℤ_assoc : (a b c : ℤ) → a +ℤ b +ℤ c ≡ a +ℤ (b +ℤ c)
+ℤ_assoc a b c = omega int_laws

-- One of the two parts is 0.
pub parts_one : (a : ℤ) → (pos_part a ≡ 0) ⊎ (neg_part a ≡ 0)
parts_one a = ground arith

-- The rounded quotient is the greatest whose multiple does not pass the number.
pub floor_div_bounds :
    (a : ℤ) (d : ℕ)
    → 0 < d
    → (scale d (floor_div a d) ≤ℤ a) × (a <ℤ scale d (floor_div a d) +ℤ pos d)
unfolding floor_div
floor_div_bounds (pos n) d h =
    (grind (int_laws, scale_parts d (pos (n / d))), grind (int_laws, scale_parts d (pos (n / d))))
floor_div_bounds (negsuc n) d h = (
  grind (int_laws, scale_parts d (negsuc (n / d))),
  grind (int_laws, scale_parts d (negsuc (n / d))),
)

div_mono : (a b d : ℕ) → 0 < d → a ≤ b → a / d ≤ b / d
div_mono a b d h le = (le-div_iff_mul-le h).1 (le_trans (div-mul-le_self a d) le)

pub floor_div_mono : (a b : ℤ) (d : ℕ) → 0 < d → a ≤ℤ b → floor_div a d ≤ℤ floor_div b d
unfolding floor_div
floor_div_mono (pos n) (pos m) d h le = omega (arith, div_mono n m d h (omega arith))
floor_div_mono (pos n) (negsuc m) d h le = absurd (omega arith)
floor_div_mono (negsuc n) (pos m) d h le = omega arith
floor_div_mono (negsuc n) (negsuc m) d h le = omega (arith, div_mono m n d h (omega arith))

pub scale_mono : (n : ℕ) (a b : ℤ) → a ≤ℤ b → scale n a ≤ℤ scale n b
scale_mono n a b h = omega (int_laws, mul-le-mul_left n h)

pub scale-scale : (n m : ℕ) (a : ℤ) → scale n (scale m a) ≡ scale (n * m) a
scale-scale n m a = omega (int_laws, ap (λ (t : ℕ). n * t) (scale_parts m a))

pub scale-+ℤ : (n : ℕ) (a b : ℤ) → scale n (a +ℤ b) ≡ scale n a +ℤ scale n b
scale-+ℤ n a b = omega (int_laws, ap (λ (t : ℕ). n * t) (+ℤ_parts a b))

pub scale--ℤ : (n : ℕ) (a b : ℤ) → scale n (a -ℤ b) ≡ scale n a -ℤ scale n b
scale--ℤ n a b = omega (int_laws, ap (λ (t : ℕ). n * t) (-ℤ_parts a b))

pub *ℤ_parts :
    (a b : ℤ)
    → pos_part (a *ℤ b) + (pos_part a * neg_part b + neg_part a * pos_part b)
      ≡ neg_part (a *ℤ b) + (pos_part a * pos_part b + neg_part a * neg_part b)
unfolding ◌*ℤ◌
*ℤ_parts a b = ground arith

pub *ℤ-zero : (a : ℤ) → a *ℤ pos 0 ≡ pos 0
*ℤ-zero a = omega (int_laws, *ℤ_parts a (pos 0))

-- A product with a difference is the difference of the products.
pub -ℤ-*ℤ : (a b c : ℤ) → (a -ℤ b) *ℤ c ≡ a *ℤ c -ℤ b *ℤ c
-ℤ-*ℤ a b c = omega (
  int_laws,
  *ℤ_parts (a -ℤ b) c,
  *ℤ_parts a c,
  *ℤ_parts b c,
  ap (λ (t : ℕ). t * pos_part c) (-ℤ_parts a b),
  ap (λ (t : ℕ). t * neg_part c) (-ℤ_parts a b),
)
