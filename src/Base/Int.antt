-- ===== src/Base/Int.antt =====
-- The C++ integer types as ranges of integers: arithmetic modulo the width, truncating division.
use Prim.Native.Nat.{ℕ, suc, ◌+◌, ◌-◌, ◌*◌, ◌/◌, ◌%◌, ◌^◌, ◌≤◌}
use mathlib.Core.Path.{◌≡◌, refl}
use mathlib.Core.Bool.{Bool, true, false, xor}
use mathlib.Core.Option.{Option, none, some}
use native.Mathlib.Omega.{arith}
use hpx_mp.Base.Tests.{ltb, leb, ◌==◌, if◌then◌else◌}

-- `negsuc n` is -(n + 1).
pub data ℤ : Type 0 where
  pos : ℕ → ℤ
  negsuc : ℕ → ℤ

abbrev pub pos_part : ℤ → ℕ
pos_part (pos n) = n
pos_part (negsuc n) = 0

abbrev pub neg_part : ℤ → ℕ
neg_part (pos n) = 0
neg_part (negsuc n) = suc n

-- a - b, as an integer.
abbrev pub sub_ℕ : ℕ → ℕ → ℤ
sub_ℕ a b = if leb b a then pos (a - b) else negsuc (b - a - 1)

infixl 65 ◌+ℤ◌ ◌-ℤ◌
infixl 70 ◌*ℤ◌
infix 50 ◌≤ℤ◌
unfoldable pub ◌+ℤ◌ : ℤ → ℤ → ℤ
a +ℤ b = sub_ℕ (pos_part a + pos_part b) (neg_part a + neg_part b)

unfoldable pub ◌-ℤ◌ : ℤ → ℤ → ℤ
a -ℤ b = sub_ℕ (pos_part a + neg_part b) (neg_part a + pos_part b)

unfoldable pub ◌*ℤ◌ : ℤ → ℤ → ℤ
a *ℤ b =
    sub_ℕ (pos_part a * pos_part b + neg_part a * neg_part b)
      (pos_part a * neg_part b + neg_part a * pos_part b)

abbrev pub ◌≤ℤ◌ : ℤ → ℤ → Type 0
a ≤ℤ b = pos_part a + neg_part b ≤ pos_part b + neg_part a

abbrev pub ltb_ℤ : ℤ → ℤ → Bool
ltb_ℤ a b = ltb (pos_part a + neg_part b) (pos_part b + neg_part a)

abbrev pub eqb_ℤ : ℤ → ℤ → Bool
eqb_ℤ a b = pos_part a + neg_part b == pos_part b + neg_part a

abbrev pub negate : ℤ → ℤ
negate a = sub_ℕ (neg_part a) (pos_part a)

abbrev pub abs : ℤ → ℕ
abs (pos n) = n
abs (negsuc n) = suc n

abbrev is_neg : ℤ → Bool
is_neg (pos n) = false
is_neg (negsuc n) = true

abbrev with_sign : Bool → ℕ → ℤ
with_sign true n = sub_ℕ 0 n
with_sign false n = pos n

-- `/` and `%` of C++ truncate towards zero; the remainder has the sign of the dividend.
unfoldable pub quot : ℤ → ℤ → ℤ
unfolding xor
quot a b = with_sign (xor (is_neg a) (is_neg b)) (abs a / abs b)

unfoldable pub rem : ℤ → ℤ → ℤ
rem a b = with_sign (is_neg a) (abs a % abs b)

pub data IntType : Type 0 where
  int32 uint32 int64 uint64 : IntType

-- The residue modulo 2 ^ w, as a number below 2 ^ w.
abbrev residue : ℕ → ℤ → ℕ
residue m (pos n) = n % m
residue m (negsuc n) = m - 1 - n % m

abbrev to_signed : ℕ → ℕ → ℤ
to_signed m r = if ltb r (m / 2) then pos r else negsuc (m - 1 - r)

-- The value of a type that is congruent to an integer: what a conversion gives, and what
-- arithmetic in the type gives where it wraps.
unfoldable pub norm : IntType → ℤ → ℤ
norm int32 a = to_signed (2 ^ 32) (residue (2 ^ 32) a)
norm uint32 a = pos (residue (2 ^ 32) a)
norm int64 a = to_signed (2 ^ 64) (residue (2 ^ 64) a)
norm uint64 a = pos (residue (2 ^ 64) a)

abbrev pub min_value : IntType → ℤ
min_value int32 = negsuc (2 ^ 31 - 1)
min_value uint32 = pos 0
min_value int64 = negsuc (2 ^ 63 - 1)
min_value uint64 = pos 0

abbrev pub max_value : IntType → ℤ
max_value int32 = pos (2 ^ 31 - 1)
max_value uint32 = pos (2 ^ 32 - 1)
max_value int64 = pos (2 ^ 63 - 1)
max_value uint64 = pos (2 ^ 64 - 1)

abbrev pub InRange : IntType → ℤ → Type 0
InRange t a = (min_value t ≤ℤ a) × (a ≤ℤ max_value t)

unfoldable pub add : IntType → ℤ → ℤ → ℤ
add t a b = norm t (a +ℤ b)

unfoldable pub sub : IntType → ℤ → ℤ → ℤ
sub t a b = norm t (a -ℤ b)

unfoldable pub mul : IntType → ℤ → ℤ → ℤ
mul t a b = norm t (a *ℤ b)

-- A division by zero traps.
unfoldable pub div? : IntType → ℤ → ℤ → Option ℤ
div? t a b = if eqb_ℤ b (pos 0) then none else some (norm t (quot a b))

unfoldable pub rem? : IntType → ℤ → ℤ → Option ℤ
rem? t a b = if eqb_ℤ b (pos 0) then none else some (norm t (rem a b))

-- Every operation, for the `unfolding` line of a test.
unfoldable pub arithmetic : Unit {0}
unfolding ◌+ℤ◌ ◌-ℤ◌ ◌*ℤ◌ quot rem norm add sub mul div? rem?
arithmetic = tt

-- A value of the type is left as it is.
pub norm_of_InRange : (t : IntType) (a : ℤ) → InRange t a → norm t a ≡ a
unfolding norm
norm_of_InRange int32 a h = ground arith
norm_of_InRange uint32 a h = ground arith
norm_of_InRange int64 a h = ground arith
norm_of_InRange uint64 a h = ground arith

-- The result is always a value of the type.
pub norm-InRange : (t : IntType) (a : ℤ) → InRange t (norm t a)
unfolding norm
norm-InRange int32 a = ground arith
norm-InRange uint32 a = ground arith
norm-InRange int64 a = ground arith
norm-InRange uint64 a = ground arith

-- One lemma for each operation lets `omega` work with the operations shut, at any depth.
pub +ℤ_parts :
    (a b : ℤ)
    → pos_part (a +ℤ b) + neg_part a + neg_part b ≡ neg_part (a +ℤ b) + pos_part a + pos_part b
unfolding ◌+ℤ◌
+ℤ_parts a b = ground arith

pub -ℤ_parts :
    (a b : ℤ)
    → pos_part (a -ℤ b) + neg_part a + pos_part b ≡ neg_part (a -ℤ b) + pos_part a + neg_part b
unfolding ◌-ℤ◌
-ℤ_parts a b = ground arith

pub eq_of_parts : (a b : ℤ) → pos_part a + neg_part b ≡ pos_part b + neg_part a → a ≡ b
eq_of_parts a b h = ground arith

pub ruleset int_laws = (arith, +ℤ_parts, -ℤ_parts, eq_of_parts)

-- On numbers the operations are those of ℕ.
pub pos-+ℤ-pos : (a b : ℕ) → pos a +ℤ pos b ≡ pos (a + b)
unfolding ◌+ℤ◌
pos-+ℤ-pos a b = ground arith

pub pos--ℤ-pos : (a b : ℕ) → b ≤ a → pos a -ℤ pos b ≡ pos (a - b)
unfolding ◌-ℤ◌
pos--ℤ-pos a b h = ground arith

pub pos-*ℤ-pos : (a b : ℕ) → pos a *ℤ pos b ≡ pos (a * b)
unfolding ◌*ℤ◌
pos-*ℤ-pos a b = ground arith

pub negate-*ℤ-pos : (a b : ℕ) → negate (pos a) *ℤ pos b ≡ negate (pos (a * b))
unfolding ◌*ℤ◌
negate-*ℤ-pos a b = eq_of_parts _ _ (ground arith)

pub quot-pos : (a b : ℕ) → quot (pos a) (pos b) ≡ pos (a / b)
unfolding quot
quot-pos a b = refl

pub rem-pos : (a b : ℕ) → rem (pos a) (pos b) ≡ pos (a % b)
unfolding rem
rem-pos a b = refl

mixed_signs : quot (negsuc 6) (pos 2) ≡ negsuc 2
unfolding quot
mixed_signs = refl

remainder_sign : rem (pos 7) (negsuc 2) ≡ pos 1
unfolding rem
remainder_sign = refl
