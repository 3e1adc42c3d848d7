-- ===== src/Atomic/Critical/Capture.antt =====
-- `OP_CRITICAL_CPT` and `OP_CRITICAL_CPT_REV` of src/kmp_atomic.cpp: the critical sections that also
-- capture a value, an access of a thread at a time.
pub mod Holds
pub mod Linear
use hpx_mp.Base.{ℕ, Bool, Option, none, some, List, [], ◌∷◌, if◌then◌else◌, update}
use hpx_mp.Atomic.Critical.{Stage}

-- Where a thread stands. Before the write it has the value found and the one computed; `new_value`
-- is `none` until it is read, which is before the update where `flag` is unset (`kept`) and after it
-- where it is set.
pub data CaptureStage : Type 0 where
  acquire : CaptureStage
  locked : CaptureStage
  kept : ℕ → CaptureStage
  loaded : Option ℕ → ℕ → ℕ → CaptureStage
  stored : Option ℕ → ℕ → ℕ → CaptureStage
  read_back : ℕ → ℕ → ℕ → CaptureStage
  released : ℕ → ℕ → ℕ → CaptureStage
  trapped : CaptureStage

-- A cell, the thread that holds the lock, and the threads.
pub record SharedCpt : Type 0 where
  pub cell : ℕ
  pub lock : Option ℕ
  pub stage : ℕ → CaptureStage

abbrev pub acquired_cpt : ℕ → Option ℕ → Option ℕ × CaptureStage
acquired_cpt g none = (some g, CaptureStage.locked)
acquired_cpt g (some owner) = (some owner, CaptureStage.acquire)

abbrev pub computed_cpt : Option ℕ → ℕ → Option ℕ → CaptureStage
computed_cpt new_value old_value none = CaptureStage.trapped
computed_cpt new_value old_value (some n) = CaptureStage.loaded new_value old_value n

-- One access; `f` is the right-hand side as a function of `*lhs`.
unfoldable pub step_capture :
    Bool → (ℕ → Option ℕ) → ℕ → ℕ → Option ℕ → CaptureStage → ℕ × Option ℕ × CaptureStage
step_capture flag f g cell lock CaptureStage.acquire =
    let (lock', s) = acquired_cpt g lock in (cell, lock', s)
step_capture flag f g cell lock CaptureStage.locked =
    (cell, lock, if flag then computed_cpt none cell (f cell) else CaptureStage.kept cell)
step_capture flag f g cell lock (CaptureStage.kept v) =
    (cell, lock, computed_cpt (some v) cell (f cell))
step_capture flag f g cell lock (CaptureStage.loaded v o n) = (n, lock, CaptureStage.stored v o n)
step_capture flag f g cell lock (CaptureStage.stored none o n) =
    (cell, lock, CaptureStage.read_back cell o n)
step_capture flag f g cell lock (CaptureStage.stored (some v) o n) =
    (cell, none, CaptureStage.released v o n)
step_capture flag f g cell lock (CaptureStage.read_back v o n) =
    (cell, none, CaptureStage.released v o n)
step_capture flag f g cell lock (CaptureStage.released v o n) =
    (cell, lock, CaptureStage.released v o n)
step_capture flag f g cell lock CaptureStage.trapped = (cell, lock, CaptureStage.trapped)

unfoldable pub step_cpt : (ℕ → Bool) → (ℕ → ℕ → Option ℕ) → ℕ → SharedCpt → SharedCpt
step_cpt flag prog g s =
    let (cell, lock, stage) = step_capture (flag g) (prog g) g s.cell s.lock (s.stage g) in
    record { cell = cell; lock = lock; stage = update s.stage g stage }

-- The threads of a list make an access each, one after the other.
unfoldable pub run_cpt : (ℕ → Bool) → (ℕ → ℕ → Option ℕ) → List ℕ → SharedCpt → SharedCpt
run_cpt flag prog [] s = s
run_cpt flag prog (g ∷ gs) s = run_cpt flag prog gs (step_cpt flag prog g s)

unfoldable pub start_cpt : ℕ → SharedCpt
start_cpt x = record { cell = x; lock = none; stage = λ g. CaptureStage.acquire }

-- The stage without the capture.
abbrev pub forget : CaptureStage → Stage
forget CaptureStage.acquire = Stage.acquire
forget CaptureStage.locked = Stage.locked
forget (CaptureStage.kept v) = Stage.locked
forget (CaptureStage.loaded v o n) = Stage.loaded o n
forget (CaptureStage.stored v o n) = Stage.stored o n
forget (CaptureStage.read_back v o n) = Stage.stored o n
forget (CaptureStage.released v o n) = Stage.released o n
forget CaptureStage.trapped = Stage.trapped
