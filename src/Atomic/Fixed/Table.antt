-- ===== src/Atomic/Fixed/Table.antt =====
-- The tables of src/kmp_atomic.cpp against the operations in C++ arithmetic.
use hpx_mp.Base.{Bool, false, sym, ◌∙◌, ℕ, ◌+◌, ◌%◌, ◌^◌, ◌<◌, ◌≡◌, refl, ap, some, arith, true}
use hpx_mp.Base.Int.{◌+ℤ◌, ◌-ℤ◌}
use hpx_mp.Atomic.LockFree.{update_of}
use hpx_mp.Atomic.Fixed.{
  Kind, width, Op, result, atomic_update, value_in, bits_in, negated, captured, captured_add,
  atomic_cpt,
}

added_32 :
    (a b : ℕ)
    → a < 2 ^ 32
    → b < 2 ^ 32
    → (a + b) % 2 ^ 32 ≡ bits_in (2 ^ 32) (value_in (2 ^ 32) true a +ℤ value_in (2 ^ 32) true b)
unfolding ◌+ℤ◌
added_32 a b p q = ground arith

added_64 :
    (a b : ℕ)
    → a < 2 ^ 64
    → b < 2 ^ 64
    → (a + b) % 2 ^ 64 ≡ bits_in (2 ^ 64) (value_in (2 ^ 64) true a +ℤ value_in (2 ^ 64) true b)
unfolding ◌+ℤ◌
added_64 a b p q = ground arith

taken_32 :
    (a b : ℕ)
    → a < 2 ^ 32
    → b < 2 ^ 32
    → (a + negated Kind.fixed4 b) % 2 ^ 32
      ≡ bits_in (2 ^ 32) (value_in (2 ^ 32) true a -ℤ value_in (2 ^ 32) true b)
unfolding ◌-ℤ◌
taken_32 a b p q = ground arith

taken_64 :
    (a b : ℕ)
    → a < 2 ^ 64
    → b < 2 ^ 64
    → (a + negated Kind.fixed8 b) % 2 ^ 64
      ≡ bits_in (2 ^ 64) (value_in (2 ^ 64) true a -ℤ value_in (2 ^ 64) true b)
unfolding ◌-ℤ◌
taken_64 a b p q = ground arith

-- For values of the type's width, the update of the routine that the tables give is the operation on
-- the cell's value and the operand, also where one instruction adds the operand or its negation.
pub atomic_update-result :
    (o : Op) (k : Kind) (a b : ℕ)
    → a < 2 ^ width k
    → b < 2 ^ width k
    → update_of (atomic_update o k b) a ≡ result o k a b
unfolding update_of atomic_update result
atomic_update-result Op.add Kind.fixed1 a b p q = refl
atomic_update-result Op.add Kind.fixed1u a b p q = refl
atomic_update-result Op.add Kind.fixed2 a b p q = refl
atomic_update-result Op.add Kind.fixed2u a b p q = refl
atomic_update-result Op.add Kind.fixed4 a b p q = ap some (added_32 a b p q)
atomic_update-result Op.add Kind.fixed4u a b p q = refl
atomic_update-result Op.add Kind.fixed8 a b p q = ap some (added_64 a b p q)
atomic_update-result Op.add Kind.fixed8u a b p q = refl
atomic_update-result Op.sub Kind.fixed1 a b p q = refl
atomic_update-result Op.sub Kind.fixed1u a b p q = refl
atomic_update-result Op.sub Kind.fixed2 a b p q = refl
atomic_update-result Op.sub Kind.fixed2u a b p q = refl
atomic_update-result Op.sub Kind.fixed4 a b p q = ap some (taken_32 a b p q)
atomic_update-result Op.sub Kind.fixed4u a b p q = refl
atomic_update-result Op.sub Kind.fixed8 a b p q = ap some (taken_64 a b p q)
atomic_update-result Op.sub Kind.fixed8u a b p q = refl
atomic_update-result Op.andb k a b p q = refl
atomic_update-result Op.div k a b p q = refl
atomic_update-result Op.mul k a b p q = refl
atomic_update-result Op.orb k a b p q = refl
atomic_update-result Op.shl k a b p q = refl
atomic_update-result Op.shr k a b p q = refl
atomic_update-result Op.xor k a b p q = refl
atomic_update-result Op.andl k a b p q = refl
atomic_update-result Op.orl k a b p q = refl
atomic_update-result Op.neqv k a b p q = refl
atomic_update-result Op.eqv k a b p q = refl

-- An addition that captures returns by its flag what it left or what it found.
added_captured :
    (o : Op) (k : Kind) (a b n : ℕ) (flag : Bool)
    → result o k a b ≡ some n
    → captured_add o k b flag (a, n) ≡ some (captured flag (a, n))
unfolding captured_add captured
added_captured o k a b n true e = e
added_captured o k a b n false e = refl

-- For values of the type's width, and an update that has a result, a capture returns the value that
-- its update left where its flag is set, and else the value that it found.
atomic_cpt-captured :
    (o : Op) (k : Kind) (a b n : ℕ) (flag : Bool)
    → a < 2 ^ width k
    → b < 2 ^ width k
    → update_of (atomic_cpt o k b).0 a ≡ some n
    → (atomic_cpt o k b).1 flag (a, n) ≡ some (captured flag (a, n))
unfolding atomic_cpt update_of result
atomic_cpt-captured Op.add Kind.fixed1 a b n flag p q e = refl
atomic_cpt-captured Op.add Kind.fixed1u a b n flag p q e = refl
atomic_cpt-captured Op.add Kind.fixed2 a b n flag p q e = refl
atomic_cpt-captured Op.add Kind.fixed2u a b n flag p q e = refl
atomic_cpt-captured Op.add Kind.fixed4 a b n flag p q e =
    added_captured Op.add Kind.fixed4 a b n flag (ap some (sym (added_32 a b p q)) ∙ e)
atomic_cpt-captured Op.add Kind.fixed4u a b n flag p q e = refl
atomic_cpt-captured Op.add Kind.fixed8 a b n flag p q e =
    added_captured Op.add Kind.fixed8 a b n flag (ap some (sym (added_64 a b p q)) ∙ e)
atomic_cpt-captured Op.add Kind.fixed8u a b n flag p q e = refl
atomic_cpt-captured Op.sub Kind.fixed1 a b n flag p q e = refl
atomic_cpt-captured Op.sub Kind.fixed1u a b n flag p q e = refl
atomic_cpt-captured Op.sub Kind.fixed2 a b n flag p q e = refl
atomic_cpt-captured Op.sub Kind.fixed2u a b n flag p q e = refl
atomic_cpt-captured Op.sub Kind.fixed4 a b n flag p q e =
    added_captured Op.sub Kind.fixed4 a b n flag (ap some (sym (taken_32 a b p q)) ∙ e)
atomic_cpt-captured Op.sub Kind.fixed4u a b n flag p q e = refl
atomic_cpt-captured Op.sub Kind.fixed8 a b n flag p q e =
    added_captured Op.sub Kind.fixed8 a b n flag (ap some (sym (taken_64 a b p q)) ∙ e)
atomic_cpt-captured Op.sub Kind.fixed8u a b n flag p q e = refl
atomic_cpt-captured Op.andb k a b n flag p q e = refl
atomic_cpt-captured Op.div k a b n flag p q e = refl
atomic_cpt-captured Op.mul k a b n flag p q e = refl
atomic_cpt-captured Op.orb k a b n flag p q e = refl
atomic_cpt-captured Op.shl k a b n flag p q e = refl
atomic_cpt-captured Op.shr k a b n flag p q e = refl
atomic_cpt-captured Op.xor k a b n flag p q e = refl
atomic_cpt-captured Op.andl k a b n flag p q e = refl
atomic_cpt-captured Op.orl k a b n flag p q e = refl
atomic_cpt-captured Op.neqv k a b n flag p q e = refl
atomic_cpt-captured Op.eqv k a b n flag p q e = refl
