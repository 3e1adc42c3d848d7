-- ===== src/Atomic/Critical.antt =====
-- The routines of src/kmp_atomic.cpp for the types that are too wide for an instruction: the update
-- of the cell between acquiring and releasing a lock, a step of a thread at a time.
pub mod Linear
pub mod Capture
pub mod Words
pub mod MinMax
pub mod Logical
use hpx_mp.Base.{ℕ, ◌≡◌, Bool, true, false, Option, none, some, List, [], ◌∷◌, update}

-- Where a thread stands: before acquiring the lock, with it, after reading the cell, after writing
-- it, and after releasing the lock. A computation that traps keeps the lock.
pub data Stage : Type 0 where
  acquire : Stage
  locked : Stage
  loaded : ℕ → ℕ → Stage
  stored : ℕ → ℕ → Stage
  released : ℕ → ℕ → Stage
  trapped : Stage

-- A cell, the thread that holds the lock, and the threads that update the cell.
pub record Shared : Type 0 where
  pub cell : ℕ
  pub lock : Option ℕ
  pub stage : ℕ → Stage

-- `__kmp_acquire_atomic_lock`: a thread that does not get the lock stays where it is.
abbrev pub acquired : ℕ → Option ℕ → Option ℕ × Stage
acquired g none = (some g, locked)
acquired g (some owner) = (some owner, acquire)

abbrev pub computed : ℕ → Option ℕ → Stage
computed old_value none = trapped
computed old_value (some new_value) = loaded old_value new_value

-- One step of `OP_CRITICAL` and its kin, with the assignment's right-hand side as a function of
-- `*lhs`: the cell, the lock and the thread.
unfoldable pub step_critical : (ℕ → Option ℕ) → ℕ → ℕ → Option ℕ → Stage → ℕ × Option ℕ × Stage
step_critical f g cell lock acquire = let (lock', s) = acquired g lock in (cell, lock', s)
step_critical f g cell lock locked = (cell, lock, computed cell (f cell))
step_critical f g cell lock (loaded o n) = (n, lock, stored o n)
step_critical f g cell lock (stored o n) = (cell, none, released o n)
step_critical f g cell lock (released o n) = (cell, lock, released o n)
step_critical f g cell lock trapped = (cell, lock, trapped)

unfoldable pub step : (ℕ → ℕ → Option ℕ) → ℕ → Shared → Shared
step prog g s =
    let (cell, lock, stage) = step_critical (prog g) g s.cell s.lock (s.stage g) in
    record { cell = cell; lock = lock; stage = update s.stage g stage }

-- The threads of a list take a step each, one after the other.
unfoldable pub run : (ℕ → ℕ → Option ℕ) → List ℕ → Shared → Shared
run prog [] s = s
run prog (g ∷ gs) s = run prog gs (step prog g s)

unfoldable pub start : ℕ → Shared
start x = record { cell = x; lock = none; stage = λ g. acquire }

-- The update of a thread counts from the write on.
abbrev pub outcome : Stage → Option (ℕ × ℕ)
outcome acquire = none
outcome locked = none
outcome (loaded o n) = none
outcome (stored o n) = some (o, n)
outcome (released o n) = some (o, n)
outcome trapped = none
