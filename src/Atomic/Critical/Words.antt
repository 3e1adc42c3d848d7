-- ===== src/Atomic/Critical/Words.antt =====
-- Reads and updates of a cell of two words under a lock of src/kmp_atomic.cpp (`OP_CRITICAL_READ`,
-- `OP_CRITICAL`), one access to a word at a time: no instruction copies a value of this size.
pub mod Holds
pub mod Linear
pub mod Examples
use hpx_mp.Base.{ℕ, ◌+◌, ◌*◌, ◌/◌, ◌%◌, ◌^◌, Option, none, some, List, [], ◌∷◌, update}

abbrev pub word_0 : ℕ → ℕ
word_0 n = n % 2 ^ 64

abbrev pub word_1 : ℕ → ℕ
word_1 n = n / 2 ^ 64

abbrev pub words : ℕ → ℕ × ℕ
words n = (word_0 n, word_1 n)

abbrev pub whole : ℕ → ℕ → ℕ
whole a b = b * 2 ^ 64 + a

-- What a thread does: it reads the cell, or updates it by a function of its value.
pub data Access : Type 0 where
  read : Access
  change : (ℕ → Option ℕ) → Access

-- Where a thread stands: with the first word, with the value computed, after the first word of it is
-- written, and with nothing left but the release. A computation that traps keeps the lock.
pub data WordStage : Type 0 where
  acquire : WordStage
  locked : WordStage
  half : ℕ → WordStage
  computed : ℕ → ℕ → WordStage
  half_stored : ℕ → ℕ → WordStage
  over : ℕ → ℕ → WordStage
  released : ℕ → ℕ → WordStage
  trapped : WordStage

pub record SharedWords : Type 0 where
  pub cell : ℕ × ℕ
  pub lock : Option ℕ
  pub stage : ℕ → WordStage

abbrev pub take_lock : ℕ → Option ℕ → Option ℕ × WordStage
take_lock g none = (some g, WordStage.locked)
take_lock g (some owner) = (some owner, WordStage.acquire)

abbrev pub of_result : ℕ → Option ℕ → WordStage
of_result o none = WordStage.trapped
of_result o (some n) = WordStage.computed o n

-- With the whole value: `OP_CRITICAL_READ` is over, `OP_CRITICAL` computes.
unfoldable pub with_value : Access → ℕ → WordStage
with_value Access.read v = WordStage.over v v
with_value (Access.change f) v = of_result v (f v)

unfoldable pub step_words :
    Access → ℕ → ℕ × ℕ → Option ℕ → WordStage → (ℕ × ℕ) × Option ℕ × WordStage
step_words k g cell lock WordStage.acquire = let (lock', s) = take_lock g lock in (cell, lock', s)
step_words k g cell lock WordStage.locked = (cell, lock, WordStage.half cell.0)
step_words k g cell lock (WordStage.half a) = (cell, lock, with_value k (whole a cell.1))
step_words k g cell lock (WordStage.computed o n) =
    ((word_0 n, cell.1), lock, WordStage.half_stored o n)
step_words k g cell lock (WordStage.half_stored o n) =
    ((cell.0, word_1 n), lock, WordStage.over o n)
step_words k g cell lock (WordStage.over o n) = (cell, none, WordStage.released o n)
step_words k g cell lock (WordStage.released o n) = (cell, lock, WordStage.released o n)
step_words k g cell lock WordStage.trapped = (cell, lock, WordStage.trapped)

unfoldable pub step : (ℕ → Access) → ℕ → SharedWords → SharedWords
step prog g s =
    let (cell, lock, stage) = step_words (prog g) g s.cell s.lock (s.stage g) in
    record { cell = cell; lock = lock; stage = update s.stage g stage }

unfoldable pub run_words : (ℕ → Access) → List ℕ → SharedWords → SharedWords
run_words prog [] s = s
run_words prog (g ∷ gs) s = run_words prog gs (step prog g s)

unfoldable pub start : ℕ → SharedWords
start x = record { cell = words x; lock = none; stage = λ g. WordStage.acquire }

-- What a thread found and left; a read leaves what it finds, and returns it.
abbrev pub outcome : WordStage → Option (ℕ × ℕ)
outcome WordStage.acquire = none
outcome WordStage.locked = none
outcome (WordStage.half a) = none
outcome (WordStage.computed o n) = none
outcome (WordStage.half_stored o n) = none
outcome (WordStage.over o n) = some (o, n)
outcome (WordStage.released o n) = some (o, n)
outcome WordStage.trapped = none
