-- ===== src/Atomic/Fixed/Typed.antt =====
-- The integer updates of src/kmp_atomic.cpp by any number of threads, as operations of C++ on the
-- value of one type.

use native.Mathlib.Nat.{mod-lt}
use hpx_mp.Base.{
  ℕ, zero, suc, ◌+◌, ◌-◌, ◌*◌, ◌/◌, ◌%◌, ◌^◌, ◌<◌, ◌≡◌, sym, ◌∙◌, subst, Bool, true, false, Option,
  none, some, List, arith, ◌==◌, ◌||◌, ltb, if◌then◌else◌,
}
use hpx_mp.Base.Int.{ℤ, pos, negsuc, quot}
use hpx_mp.Atomic.Serial.{Commit, lookup, Serial}
use hpx_mp.Atomic.LockFree.{Routine, run, start, update_of, outcome}
use hpx_mp.Atomic.LockFree.Linear.{run-Serial}
use hpx_mp.Atomic.Fixed.{
  Kind, width, Op, result, atomic_update, value, bits, bits_in, bitwise, and_bit, or_bit, xor_bit,
  divides, divided, promoted_width,
}
use hpx_mp.Atomic.Fixed.Table.{atomic_update-result}

bits_in-lt : (m : ℕ) (z : ℤ) → 0 < m → bits_in m z < m
bits_in-lt m (pos n) p = mod-lt n p
bits_in-lt m (negsuc n) p = omega (arith, mod-lt n p)

width_some : (k : Kind) → 1 < 2 ^ width k
width_some Kind.fixed1 = omega arith
width_some Kind.fixed1u = omega arith
width_some Kind.fixed2 = omega arith
width_some Kind.fixed2u = omega arith
width_some Kind.fixed4 = omega arith
width_some Kind.fixed4u = omega arith
width_some Kind.fixed8 = omega arith
width_some Kind.fixed8u = omega arith

-- A function with one bit for a result.
bitwise-lt :
    (f : ℕ → ℕ → ℕ) (w a b : ℕ) → ((x y : ℕ) → x < 2 → y < 2 → f x y < 2) → bitwise f w a b < 2 ^ w
bitwise-lt f zero a b h = omega arith
bitwise-lt f (suc w) a b h =
    omega (arith, h (a % 2) (b % 2) (omega arith) (omega arith), bitwise-lt f w (a / 2) (b / 2) h)

and_bit-lt : (x y : ℕ) → x < 2 → y < 2 → and_bit x y < 2
and_bit-lt zero y p q = omega arith
and_bit-lt (suc zero) y p q = omega arith
and_bit-lt (suc (suc x)) y p q = absurd (omega arith)

or_bit-lt : (x y : ℕ) → x < 2 → y < 2 → or_bit x y < 2
or_bit-lt x y p q = ground arith

xor_bit-lt : (x y : ℕ) → x < 2 → y < 2 → xor_bit x y < 2
xor_bit-lt x y p q = ground arith

-- What a result below a bound is.
abbrev Below : ℕ → Option ℕ → Type 0
Below m none = Unit
Below m (some n) = n < m

if-Below : (m n : ℕ) (b : Bool) → n < m → Below m (if b then some n else none)
if-Below m n true h = h
if-Below m n false h = tt

bit-lt : (m : ℕ) (b : Bool) → 1 < m → (if b then 0 else 1) < m
bit-lt m true h = omega arith
bit-lt m false h = h

result-Below : (o : Op) (k : Kind) (a b : ℕ) → Below (2 ^ width k) (result o k a b)
unfolding result
result-Below Op.add k a b = bits_in-lt (2 ^ width k) _ (omega (arith, width_some k))
result-Below Op.andb k a b = bitwise-lt and_bit (width k) a b and_bit-lt
result-Below Op.div k a b =
    if-Below (2 ^ width k) (bits k (quot (value k a) (value k b))) (divides k a b)
      (bits_in-lt (2 ^ width k) _ (omega (arith, width_some k)))
result-Below Op.mul k a b = bits_in-lt (2 ^ width k) _ (omega (arith, width_some k))
result-Below Op.orb k a b = bitwise-lt or_bit (width k) a b or_bit-lt
result-Below Op.shl k a b =
    if-Below (2 ^ width k) (a * 2 ^ b % 2 ^ width k) (ltb b (promoted_width k))
      (mod-lt (a * 2 ^ b) (omega (arith, width_some k)))
result-Below Op.shr k a b =
    if-Below (2 ^ width k) (bits k (divided (value k a) (2 ^ b))) (ltb b (promoted_width k))
      (bits_in-lt (2 ^ width k) _ (omega (arith, width_some k)))
result-Below Op.sub k a b = bits_in-lt (2 ^ width k) _ (omega (arith, width_some k))
result-Below Op.xor k a b = bitwise-lt xor_bit (width k) a b xor_bit-lt
result-Below Op.andl k a b = bit-lt (2 ^ width k) (a == 0 || b == 0) (width_some k)
result-Below Op.orl k a b = bit-lt (2 ^ width k) (a + b == 0) (width_some k)
result-Below Op.neqv k a b = bitwise-lt xor_bit (width k) a b xor_bit-lt
result-Below Op.eqv k a b = bitwise-lt xor_bit (width k) a (2 ^ width k - 1 - b) xor_bit-lt

module _ (k : Kind) (op : ℕ → Op) (operand : ℕ → ℕ) (x : ℕ)
    (typed : (g : ℕ) → operand g < 2 ^ width k) (first : x < 2 ^ width k) where
  -- What thread `g` does to the cell, in C++ arithmetic.
  abbrev pub operation : ℕ → ℕ → Option ℕ
  operation g a = result (op g) k a (operand g)

  abbrev pub updates : ℕ → Routine
  updates g = atomic_update (op g) k (operand g)

  Serial-typed :
      (h : List Commit) (y : ℕ)
      → Serial (λ g. update_of (updates g)) x h y
      → Serial operation x h y × (y < 2 ^ width k)
  Serial-typed h y Serial.untouched = (Serial.untouched, first)
  Serial-typed h y (Serial.commit {h = h'} {y = z} {z = w} g past new does) =
      let (serial, small) = Serial-typed h' z past in
      let same : operation g z ≡ some w =
        sym (atomic_update-result (op g) k z (operand g) small (typed g)) ∙ does in
      (
        Serial.commit g serial new same,
        subst (Below (2 ^ width k)) same (result-Below (op g) k z (operand g)),
      )

  -- Where the first value of a cell and every operand are bits of one integer type: after any
  -- interleaving of integer updates of any number of threads, the cell holds bits of that type, and
  -- they are what the C++ operations of the threads that are done make of the first value, one
  -- after the other, each once and in one piece; each thread found and left what it has in
  -- that order.
  pub run-typed :
      (schedule : List ℕ)
      → ((run updates schedule (start x)).cell < 2 ^ width k)
        × ((h : List Commit) × Serial operation x h (run updates schedule (start x)).cell
            × ((g : ℕ) → outcome ((run updates schedule (start x)).stage g) ≡ lookup h g))
  run-typed schedule =
      let (h, serial, recorded) = run-Serial updates x schedule in
      let (typed_serial, small) = Serial-typed h (run updates schedule (start x)).cell serial in
      (small, (h, typed_serial, recorded))
