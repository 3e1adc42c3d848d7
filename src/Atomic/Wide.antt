-- ===== src/Atomic/Wide.antt =====
-- The tables of src/kmp_atomic.cpp for floating-point, complex and mixed types. Their arithmetic is
-- the processor's: a function on bits that the definitions take.
use hpx_mp.Base.{ℕ, false, Option, some}
use hpx_mp.Atomic.LockFree.{Routine}
use hpx_mp.Atomic.Fixed.{captured}

-- `float4` and `float8`: the loop on `KMP_COMPARE_AND_STORE_ACQ`.
unfoldable pub float_update : (ℕ → ℕ → ℕ) → ℕ → Routine
float_update op rhs = Routine.cmpxchg (λ old_value. some (op old_value rhs))

unfoldable pub float_rev : (ℕ → ℕ → ℕ) → ℕ → Routine
float_rev op rhs = Routine.cmpxchg (λ old_value. some (op rhs old_value))

-- The operand is of a wider type: the operation is done in it, and its result converted back.
unfoldable pub mixed_update : (ℕ → ℕ) → (ℕ → ℕ) → (ℕ → ℕ → ℕ) → ℕ → Routine
mixed_update widen narrow op rhs =
    Routine.cmpxchg (λ old_value. some (narrow (op (widen old_value) rhs)))

-- The types of 10, 16, 20 and 32 bytes, and the complex ones: under a lock.
unfoldable pub critical_update : (ℕ → ℕ → ℕ) → ℕ → ℕ → Option ℕ
critical_update op rhs lhs = some (op lhs rhs)

unfoldable pub critical_rev : (ℕ → ℕ → ℕ) → ℕ → ℕ → Option ℕ
critical_rev op rhs lhs = some (op rhs lhs)

-- The captures: the update of `OP_CRITICAL_CPT` and of `OP_CRITICAL_CPT_REV`.
unfoldable pub critical_cpt : (ℕ → ℕ → ℕ) → ℕ → ℕ → Option ℕ
critical_cpt op rhs lhs = some (op lhs rhs)

unfoldable pub critical_cpt_rev : (ℕ → ℕ → ℕ) → ℕ → ℕ → Option ℕ
critical_cpt_rev op rhs lhs = some (op rhs lhs)

-- The exchange: its update, and what it returns of the value found and the value left.
unfoldable pub critical_swp : ℕ → (ℕ → Option ℕ) × (ℕ × ℕ → ℕ)
unfolding captured
critical_swp rhs = (λ lhs. some rhs, captured false)

-- The atomic write.
unfoldable pub critical_wr : ℕ → ℕ → Option ℕ
critical_wr rhs lhs = some rhs

-- `__kmpc_atomic_10`, `_16`, `_20` and `_32`: the compiler passes the operation as a function.
unfoldable pub critical_n : (ℕ → ℕ → ℕ) → ℕ → ℕ → Option ℕ
critical_n f rhs lhs = some (f lhs rhs)
