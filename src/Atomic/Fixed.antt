-- ===== src/Atomic/Fixed.antt =====
-- The tables of src/kmp_atomic.cpp for the integer types: which routine serves which operation on
-- which type.
pub mod Table
pub mod Maximum
pub mod Capture
pub mod Typed
use hpx_mp.Base.{
  ℕ, zero, suc, ◌+◌, ◌-◌, ◌*◌, ◌/◌, ◌%◌, ◌^◌, Bool, true, false, Option, none, some, ◌==◌, ltb, leb,
  ◌&&◌, ◌||◌, if◌then◌else◌,
}
use hpx_mp.Base.Int.{ℤ, pos, negsuc, ◌+ℤ◌, ◌-ℤ◌, ◌*ℤ◌, quot, ltb_ℤ}
use hpx_mp.Atomic.LockFree.{Routine}

pub data Kind : Type 0 where
  fixed1 fixed1u fixed2 fixed2u fixed4 fixed4u fixed8 fixed8u : Kind

abbrev pub width : Kind → ℕ
width Kind.fixed1 = 8
width Kind.fixed1u = 8
width Kind.fixed2 = 16
width Kind.fixed2u = 16
width Kind.fixed4 = 32
width Kind.fixed4u = 32
width Kind.fixed8 = 64
width Kind.fixed8u = 64

abbrev pub is_signed : Kind → Bool
is_signed Kind.fixed1 = true
is_signed Kind.fixed1u = false
is_signed Kind.fixed2 = true
is_signed Kind.fixed2u = false
is_signed Kind.fixed4 = true
is_signed Kind.fixed4u = false
is_signed Kind.fixed8 = true
is_signed Kind.fixed8u = false

-- The number that the bits of a type stand for, and the bits of a number.
abbrev pub value_in : ℕ → Bool → ℕ → ℤ
value_in m signed a = if signed && leb (m / 2) a then negsuc (m - 1 - a) else pos a

abbrev pub bits_in : ℕ → ℤ → ℕ
bits_in m (pos n) = n % m
bits_in m (negsuc n) = m - 1 - n % m

abbrev pub value : Kind → ℕ → ℤ
value k = value_in (2 ^ width k) (is_signed k)

abbrev pub bits : Kind → ℤ → ℕ
bits k = bits_in (2 ^ width k)

-- A function on bits, on the lowest ones of two words.
abbrev pub bitwise : (ℕ → ℕ → ℕ) → ℕ → ℕ → ℕ → ℕ
bitwise f zero a b = 0
bitwise f (suc w) a b = f (a % 2) (b % 2) + 2 * bitwise f w (a / 2) (b / 2)

abbrev pub and_bit : ℕ → ℕ → ℕ
and_bit a b = a * b

abbrev pub or_bit : ℕ → ℕ → ℕ
or_bit a b = if a + b == 0 then 0 else 1

abbrev pub xor_bit : ℕ → ℕ → ℕ
xor_bit a b = if a == b then 0 else 1

-- The operand of a shift is promoted to `int` at least.
abbrev pub promoted_width : Kind → ℕ
promoted_width k = if ltb (width k) 32 then 32 else width k

-- A division by zero traps, and so does one with a quotient that the promoted type has not.
abbrev pub divides : Kind → ℕ → ℕ → Bool
divides k a b =
    if b == 0
    then false
    else if is_signed k && (leb 32 (width k) && (a == 2 ^ width k / 2 && b == 2 ^ width k - 1))
    then false
    else true

abbrev pub divided : ℤ → ℕ → ℤ
divided (pos n) m = pos (n / m)
divided (negsuc n) m = negsuc (n / m)

pub data Op : Type 0 where
  add andb div mul orb shl shr sub xor andl orl neqv eqv : Op

-- `old_value OP rhs`, as bits of the type. A signed overflow, which is undefined in C++, wraps, as
-- the instructions of the processor do; pairs of an operation and a type that the tables lack have a
-- result too.
unfoldable pub result : Op → Kind → ℕ → ℕ → Option ℕ
result Op.add k a b = some (bits k (value k a +ℤ value k b))
result Op.andb k a b = some (bitwise and_bit (width k) a b)
result Op.div k a b = if divides k a b then some (bits k (quot (value k a) (value k b))) else none
result Op.mul k a b = some (bits k (value k a *ℤ value k b))
result Op.orb k a b = some (bitwise or_bit (width k) a b)
result Op.shl k a b = if ltb b (promoted_width k) then some (a * 2 ^ b % 2 ^ width k) else none
result Op.shr k a b =
    if ltb b (promoted_width k) then some (bits k (divided (value k a) (2 ^ b))) else none
result Op.sub k a b = some (bits k (value k a -ℤ value k b))
result Op.xor k a b = some (bitwise xor_bit (width k) a b)
result Op.andl k a b = some (if a == 0 || b == 0 then 0 else 1)
result Op.orl k a b = some (if a + b == 0 then 0 else 1)
result Op.neqv k a b = some (bitwise xor_bit (width k) a b)
result Op.eqv k a b = some (bitwise xor_bit (width k) a (2 ^ width k - 1 - b))

-- `-rhs`, as bits of the type.
abbrev pub negated : Kind → ℕ → ℕ
negated k b = (2 ^ width k - b) % 2 ^ width k

-- The addition and subtraction of 4 and 8 bytes add in one instruction; all else is a loop.
unfoldable pub atomic_update : Op → Kind → ℕ → Routine
atomic_update Op.add Kind.fixed4 b = Routine.test_then_add 32 b
atomic_update Op.add Kind.fixed8 b = Routine.test_then_add 64 b
atomic_update Op.sub Kind.fixed4 b = Routine.test_then_add 32 (negated Kind.fixed4 b)
atomic_update Op.sub Kind.fixed8 b = Routine.test_then_add 64 (negated Kind.fixed8 b)
atomic_update o k b = Routine.cmpxchg (λ old_value. result o k old_value b)

-- `rhs OP *lhs`
unfoldable pub atomic_rev : Op → Kind → ℕ → Routine
atomic_rev o k b = Routine.cmpxchg (λ old_value. result o k b old_value)

unfoldable pub atomic_max : Kind → ℕ → Routine
atomic_max k b = Routine.min_max (λ old_value. ltb_ℤ (value k old_value) (value k b)) b

unfoldable pub atomic_min : Kind → ℕ → Routine
atomic_min k b = Routine.min_max (λ old_value. ltb_ℤ (value k b) (value k old_value)) b

-- The atomic write, and the exchange that captures the old value.
unfoldable pub atomic_wr : ℕ → Routine
atomic_wr b = Routine.xchg b

unfoldable pub atomic_swp : ℕ → Routine
atomic_swp b = Routine.xchg b

-- The atomic read: 4 and 8 bytes add nothing, the rest compare and store what is there.
unfoldable pub atomic_rd : Kind → Routine
atomic_rd Kind.fixed4 = Routine.test_then_add 32 0
atomic_rd Kind.fixed8 = Routine.test_then_add 64 0
atomic_rd k = Routine.cmpxchg_read

-- `__kmpc_atomic_1`, `_2`, `_4` and `_8`: the compiler passes the operation as a function.
unfoldable pub atomic_n : (ℕ → ℕ → ℕ) → ℕ → Routine
atomic_n f b = Routine.cmpxchg (λ old_value. some (f old_value b))

-- What a capture returns of the two values, by its `flag`.
unfoldable pub captured : Bool → ℕ × ℕ → ℕ
captured flag found = let (old_value, new_value) = found in if flag then new_value else old_value

-- After an addition in one instruction the new value is computed again.
unfoldable pub captured_add : Op → Kind → ℕ → Bool → ℕ × ℕ → Option ℕ
captured_add o k b flag found =
    let (old_value, new_value) = found in if flag then result o k old_value b else some old_value

-- The routine of a capture, and what it returns.
unfoldable pub atomic_cpt : Op → Kind → ℕ → Routine × (Bool → ℕ × ℕ → Option ℕ)
atomic_cpt Op.add Kind.fixed4 b = (Routine.test_then_add 32 b, captured_add Op.add Kind.fixed4 b)
atomic_cpt Op.add Kind.fixed8 b = (Routine.test_then_add 64 b, captured_add Op.add Kind.fixed8 b)
atomic_cpt Op.sub Kind.fixed4 b =
    (Routine.test_then_add 32 (negated Kind.fixed4 b), captured_add Op.sub Kind.fixed4 b)
atomic_cpt Op.sub Kind.fixed8 b =
    (Routine.test_then_add 64 (negated Kind.fixed8 b), captured_add Op.sub Kind.fixed8 b)
atomic_cpt o k b = (
  Routine.cmpxchg (λ old_value. result o k old_value b),
  λ flag found. some (captured flag found),
)

unfoldable pub atomic_cpt_rev : Op → Kind → ℕ → Routine × (Bool → ℕ × ℕ → Option ℕ)
atomic_cpt_rev o k b = (
  Routine.cmpxchg (λ old_value. result o k b old_value),
  λ flag found. some (captured flag found),
)
