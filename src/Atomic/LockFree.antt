-- ===== src/Atomic/LockFree.antt =====
-- The routines of src/kmp_atomic.cpp that take no lock, a step of a thread at a time. A cell holds
-- the bits of its value.
pub mod Linear
pub mod Progress
pub mod Sum
pub mod Tickets
use hpx_mp.Base.{
  ℕ, ◌+◌, ◌%◌, ◌^◌, Bool, true, false, Option, none, some, List, [], ◌∷◌, ◌==◌, if◌then◌else◌,
  update,
}

-- The bodies of the macros: `KMP_TEST_THEN_ADD`, `KMP_XCHG_*`, the loops on
-- `KMP_COMPARE_AND_STORE_ACQ`, the read by `KMP_COMPARE_AND_STORE_RET`, and those for the minimum and the maximum, with the test whether the
-- cell still has to change. A computation that traps has no result.
pub data Routine : Type 0 where
  test_then_add : ℕ → ℕ → Routine
  xchg : ℕ → Routine
  cmpxchg : (ℕ → Option ℕ) → Routine
  cmpxchg_read : Routine
  min_max : (ℕ → Bool) → ℕ → Routine

-- Where a thread stands: before the first look at the cell, before a further look, before
-- `KMP_COMPARE_AND_STORE` with `old_value` and `new_value`, or at the end with the two.
pub data Stage : Type 0 where
  enter : Stage
  read : Stage
  store : ℕ → ℕ → Stage
  done : ℕ → ℕ → Stage
  trapped : Stage

-- `old_value = *lhs; new_value = ...`
abbrev pub loaded : ℕ → Option ℕ → Stage
loaded old_value none = trapped
loaded old_value (some new_value) = store old_value new_value

unfoldable pub load_cmpxchg : (ℕ → Option ℕ) → ℕ → Stage
load_cmpxchg f cell = loaded cell (f cell)

-- `KMP_COMPARE_AND_STORE`, and what follows a failure.
unfoldable pub compare_and_store : ℕ → ℕ → ℕ → ℕ × Stage
compare_and_store cell old_value new_value =
    if cell == old_value then (new_value, done old_value new_value) else (cell, read)

-- One step: at most one access to the cell.
unfoldable pub step_routine : Routine → ℕ → Stage → ℕ × Stage
unfolding load_cmpxchg compare_and_store
step_routine (test_then_add bits v) cell enter =
    let new_value = (cell + v) % 2 ^ bits in (new_value, done cell new_value)
step_routine (xchg v) cell enter = (v, done cell v)
step_routine (cmpxchg f) cell enter = (cell, load_cmpxchg f cell)
step_routine (cmpxchg f) cell read = (cell, load_cmpxchg f cell)
step_routine (cmpxchg f) cell (store o n) = compare_and_store cell o n
step_routine cmpxchg_read cell enter = (cell, store cell cell)
step_routine cmpxchg_read cell (store o n) = (if cell == o then n else cell, done cell cell)
step_routine (min_max needs rhs) cell enter = (cell, if needs cell then read else done cell cell)
step_routine (min_max needs rhs) cell read =
    (cell, if needs cell then store cell rhs else done cell cell)
step_routine (min_max needs rhs) cell (store o n) = compare_and_store cell o n
step_routine r cell s = (cell, s)

-- A cell and the threads that update it.
pub record Shared : Type 0 where
  pub cell : ℕ
  pub stage : ℕ → Stage

unfoldable pub step : (ℕ → Routine) → ℕ → Shared → Shared
step prog g s =
    let (cell, stage) = step_routine (prog g) s.cell (s.stage g) in
    record { cell = cell; stage = update s.stage g stage }

-- The threads of a list take a step each, one after the other.
unfoldable pub run : (ℕ → Routine) → List ℕ → Shared → Shared
run prog [] s = s
run prog (g ∷ gs) s = run prog gs (step prog g s)

unfoldable pub start : ℕ → Shared
start x = record { cell = x; stage = λ g. enter }

-- What the update of a routine comes to.
unfoldable pub update_of : Routine → ℕ → Option ℕ
update_of (test_then_add bits v) x = some ((x + v) % 2 ^ bits)
update_of (xchg v) x = some v
update_of (cmpxchg f) x = f x
update_of cmpxchg_read x = some x
update_of (min_max needs rhs) x = some (if needs x then rhs else x)

abbrev pub outcome : Stage → Option (ℕ × ℕ)
outcome enter = none
outcome read = none
outcome (store o n) = none
outcome (done o n) = some (o, n)
outcome trapped = none
