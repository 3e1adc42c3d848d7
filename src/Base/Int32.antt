-- ===== src/Base/Int32.antt =====
-- Arithmetic of `int` where it does not wrap: on numbers it is that of ℕ, and a number added to an
-- integer moves it up.
use Prim.Native.Nat.{ℕ, zero, suc, ◌+◌, ◌-◌, ◌*◌, ◌/◌, ◌%◌, ◌^◌, ◌≤◌, ◌<◌}
use mathlib.Core.Path.{◌≡◌, ap}
use mathlib.Core.Option.{some}
use native.Mathlib.Omega.{arith}
use hpx_mp.Base.Tests.{ltb}
use hpx_mp.Base.Int.{
  ℤ, pos, negsuc, ◌+ℤ◌, ◌-ℤ◌, ◌≤ℤ◌, int32, norm, add, sub, mul, div?, rem?, InRange, max_value,
  norm_of_InRange, pos_part, neg_part, ltb_ℤ, +ℤ_parts, pos-+ℤ-pos, pos--ℤ-pos, negate-*ℤ-pos,
  negate, rem, pos-*ℤ-pos, quot-pos, rem-pos, int_laws,
}

pub norm-pos : (n : ℕ) → n < 2 ^ 31 → norm int32 (pos n) ≡ pos n
norm-pos n h = norm_of_InRange int32 (pos n) (omega arith)

pub add-pos : (a b : ℕ) → a + b < 2 ^ 31 → add int32 (pos a) (pos b) ≡ pos (a + b)
unfolding add
add-pos a b h = rw (pos-+ℤ-pos a b) (norm-pos (a + b) h)

pub mul-pos : (a b : ℕ) → a * b < 2 ^ 31 → mul int32 (pos a) (pos b) ≡ pos (a * b)
unfolding mul
mul-pos a b h = rw (pos-*ℤ-pos a b) (norm-pos (a * b) h)

pub sub_one : (a : ℕ) → 0 < a → a < 2 ^ 31 → sub int32 (pos a) (pos 1) ≡ pos (a - 1)
unfolding sub
sub_one a p h =
    rw (let e : pos a -ℤ pos 1 ≡ pos (a - 1) = omega int_laws in e) (norm-pos (a - 1) (omega arith))

pub add_minus_one : (a : ℕ) → 0 < a → a < 2 ^ 31 → add int32 (pos a) (negsuc 0) ≡ pos (a - 1)
unfolding add
add_minus_one a p h =
    rw (let e : pos a +ℤ negsuc 0 ≡ pos (a - 1) = omega int_laws in e)
      (norm-pos (a - 1) (omega arith))

pub div?-pos : (a b : ℕ) → 0 < b → a < 2 ^ 31 → div? int32 (pos a) (pos b) ≡ some (pos (a / b))
unfolding div?
div?-pos a b p h = ground (arith, quot-pos a b, norm-pos (a / b))

pub rem?-pos : (a b : ℕ) → 0 < b → a < 2 ^ 31 → rem? int32 (pos a) (pos b) ≡ some (pos (a % b))
unfolding rem?
rem?-pos a b p h = ground (arith, rem-pos a b, norm-pos (a % b))

-- A sum that stays in range is the true sum.
pub add_up :
    (l : ℤ) (n m : ℕ)
    → InRange int32 l
    → n ≤ m
    → l +ℤ pos m ≤ℤ max_value int32
    → add int32 l (pos n) ≡ l +ℤ pos n
unfolding add
add_up l n m r le top = norm_of_InRange int32 (l +ℤ pos n) (omega int_laws)

pub norm_up :
    (l : ℤ) (n m : ℕ)
    → InRange int32 l
    → n ≤ m
    → l +ℤ pos m ≤ℤ max_value int32
    → norm int32 (l +ℤ pos n) ≡ l +ℤ pos n
norm_up l n m r le top = norm_of_InRange int32 (l +ℤ pos n) (omega int_laws)

-- The distance of two bounds.
pub sub_span : (l : ℤ) (n : ℕ) → n < 2 ^ 31 → sub int32 (l +ℤ pos n) l ≡ pos n
unfolding sub
sub_span l n h = rw (let e : l +ℤ pos n -ℤ l ≡ pos n = omega int_laws in e) (norm-pos n h)

pub +ℤ_assoc-pos : (l : ℤ) (a b : ℕ) → l +ℤ pos a +ℤ pos b ≡ l +ℤ pos (a + b)
+ℤ_assoc-pos l a b = omega int_laws

pub add_more :
    (l : ℤ) (a b m : ℕ)
    → InRange int32 l
    → a + b ≤ m
    → l +ℤ pos m ≤ℤ max_value int32
    → add int32 (l +ℤ pos a) (pos b) ≡ l +ℤ pos (a + b)
unfolding add
add_more l a b m r le top = rw (+ℤ_assoc-pos l a b) (norm_up l (a + b) m r le top)

pub ltb_ℤ-up : (l : ℤ) (a b : ℕ) → ltb_ℤ (l +ℤ pos a) (l +ℤ pos b) ≡ ltb a b
ltb_ℤ-up l a b = ground (arith, +ℤ_parts l (pos a), +ℤ_parts l (pos b))

pub +ℤ_cancel-pos : (l : ℤ) (a b : ℕ) → l +ℤ pos a ≡ l +ℤ pos b → a ≡ b
+ℤ_cancel-pos l a b e =
    omega (arith, +ℤ_parts l (pos a), +ℤ_parts l (pos b), ap pos_part e, ap neg_part e)

pub ≤ℤ-up : (l : ℤ) (a b : ℕ) → l +ℤ pos a ≤ℤ l +ℤ pos b → a ≤ b
≤ℤ-up l a b h = omega (arith, +ℤ_parts l (pos a), +ℤ_parts l (pos b))

pub up-≤ℤ : (l : ℤ) (a b : ℕ) → a ≤ b → l +ℤ pos a ≤ℤ l +ℤ pos b
up-≤ℤ l a b h = omega (arith, +ℤ_parts l (pos a), +ℤ_parts l (pos b))

pub sub-pos : (a b : ℕ) → b ≤ a → a < 2 ^ 31 → sub int32 (pos a) (pos b) ≡ pos (a - b)
unfolding sub
sub-pos a b le h = rw (pos--ℤ-pos a b le) (norm-pos (a - b) (omega arith))

pub sub_back :
    (l : ℤ) (n m : ℕ)
    → InRange int32 l
    → 0 < n
    → n ≤ m
    → l +ℤ pos m ≤ℤ max_value int32
    → sub int32 (l +ℤ pos n) (pos 1) ≡ l +ℤ pos (n - 1)
unfolding sub
sub_back l n m r p le top =
    rw (let e : l +ℤ pos n -ℤ pos 1 ≡ l +ℤ pos (n - 1) = omega int_laws in e)
      (norm_up l (n - 1) m r (omega arith) top)

negate-suc : (b : ℕ) → negate (pos (suc b)) ≡ negsuc b
negate-suc b = ground arith

-- The remainder by a negative number is that by the number.
rem-negate : (a b : ℕ) → 0 < b → rem (pos a) (negate (pos b)) ≡ pos (a % b)
unfolding rem
rem-negate a zero h = elim h [ ]
rem-negate a (suc b) h = rw (negate-suc b)

pub rem?-negate :
    (a b c : ℕ)
    → 0 < b * c
    → a < 2 ^ 31
    → b < 2 ^ 31
    → b * c < 2 ^ 31
    → rem? int32 (pos a) (mul int32 (norm int32 (negate (pos b))) (pos c))
      ≡ some (pos (a % (b * c)))
unfolding rem? mul
rem?-negate a b c p ha hb hc =
    rw
      (
        norm_of_InRange int32 (negate (pos b)) (ground arith),
        negate-*ℤ-pos b c,
        norm_of_InRange int32 (negate (pos (b * c))) (ground arith),
      )
      (ground (arith, rem-negate a (b * c) p, norm-pos (a % (b * c))))
