-- ===== src/Loop/StaticInit/Limits.antt =====
-- The 64-bit entry point of `omp_static_init`: its locals are `int`s.

use hpx_mp.Base.{
  ℕ, ◌≡◌, sym, subst, Bool, true, false, Option, none, some, ◌==◌, if◌then◌else◌, ◌>>=◌, arith,
}
use hpx_mp.Base.Int.{
  ℤ, pos, int32, int64, InRange, norm, add, sub, mul, div?, norm_of_InRange, norm-InRange, rem?,
  negate,
}
use hpx_mp.Loop.Schedule.{kmp_sch_static}
use hpx_mp.Loop.StaticInit.{LoopArgs, static_block, static_chunks, for_static_init_8}

-- Both bounds are values of an `int`.
abbrev pub IsNarrow : LoopArgs → Type 0
IsNarrow r = InRange int32 r.lower × InRange int32 r.upper

abbrev Narrow : Option LoopArgs → Type 0
Narrow none = Unit
Narrow (some r) = IsNarrow r

chain : (o : Option ℤ) (f : ℤ → Option LoopArgs) → ((a : ℤ) → Narrow (f a)) → Narrow (o >>= f)
chain none f h = tt
chain (some a) f h = h a

InRange-wider : (a : ℤ) → InRange int32 a → InRange int64 a
InRange-wider a h = (omega arith, omega arith)

widened : (a : ℤ) → InRange int32 (norm int64 (norm int32 a))
widened a =
    let range = norm-InRange int32 a in
    subst (InRange int32) (sym (norm_of_InRange int64 (norm int32 a) (InRange-wider _ range))) range

widened_sum : (a b : ℤ) → InRange int32 (norm int64 (add int32 a b))
unfolding add
widened_sum a b = widened _

either :
    (c : Bool) (a b : ℤ) → InRange int32 a → InRange int32 b → InRange int32 (if c then a else b)
either true a b p q = p
either false a b p q = q

block-Narrow :
    (team_size gtid : ℕ) (incr : ℤ) (args : LoopArgs) (trip_count adjustment : ℤ)
    → Narrow (static_block int64 int64 team_size gtid incr args trip_count adjustment)
unfolding static_block
block-Narrow team_size gtid incr args trip_count adjustment =
    chain (div? int32 trip_count (pos team_size)) _
      (λ blocks. (widened _, either _ _ _ (widened args.upper) (widened_sum _ _)))

chunks-Narrow :
    (team_size gtid : ℕ) (incr chunk : ℤ) (args : LoopArgs) (trip_count : ℤ)
    → Narrow (static_chunks int64 int64 team_size gtid incr chunk args trip_count)
unfolding static_chunks
chunks-Narrow team_size gtid incr chunk args trip_count =
    chain (rem? int64 trip_count (mul int64 (norm int64 (negate chunk)) incr)) _ (λ over_chunk.
      chain (rem? int64 trip_count (mul int64 (mul int64 chunk incr) (pos team_size))) _
        (λ over_round. (widened _, widened _)))

choose : (c : Bool) (a b : Option LoopArgs) → Narrow a → Narrow b → Narrow (if c then a else b)
choose true a b p q = p
choose false a b p q = q

-- Whatever the bounds of a 64-bit loop, its schedule, its team and its thread, the bounds that the
-- thread is given fit 32 bits.
pub for_static_init_8-IsNarrow :
    (team_size gtid schedtype : ℕ) (incr chunk : ℤ) (args r : LoopArgs)
    → for_static_init_8 team_size gtid schedtype incr chunk args ≡ some r
    → IsNarrow r
unfolding for_static_init_8
for_static_init_8-IsNarrow team_size gtid schedtype incr chunk args r e = subst Narrow e (
    chain (div? int64 (sub int64 args.upper args.lower) (norm int64 incr)) _ (λ steps.
      let trip_count = norm int32 (add int64 steps (pos 1)) in
      chain (rem? int32 trip_count (pos team_size)) _ (λ left_over.
        choose (schedtype == kmp_sch_static) _ _
          (block-Narrow team_size gtid incr args trip_count _)
          (chunks-Narrow team_size gtid incr chunk args trip_count))))
