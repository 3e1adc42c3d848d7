-- ===== src/Atomic/Critical/Logical.antt =====
-- `OP_CRITICAL_L_CPT` of src/kmp_atomic.cpp: `&&` and `||` that capture a value in the GNU mode, an
-- access of a thread at a time.
use hpx_mp.Base.{ℕ, ◌≡◌, ◌∙◌, refl, Bool, Option, none, some, List, [], ◌∷◌, if◌then◌else◌, update}

-- Before the lock, under it, before the release and at the end, with `new_value`; or trapped in the
-- operation.
pub data LogicalStage : Type 0 where
  acquire locked trapped : LogicalStage
  leaving over : ℕ → LogicalStage

pub record SharedLogical : Type 0 where
  pub cell : ℕ
  pub lock : Option ℕ
  pub stage : ℕ → LogicalStage

abbrev acquired : ℕ → Option ℕ → Option ℕ × LogicalStage
acquired g none = (some g, LogicalStage.locked)
acquired g (some owner) = (some owner, LogicalStage.acquire)

abbrev computed : Option ℕ → LogicalStage
computed none = LogicalStage.trapped
computed (some n) = LogicalStage.leaving n

-- `f` is `*lhs OP rhs` as a function of `*lhs`.
unfoldable pub step_logical :
    Bool → (ℕ → Option ℕ) → ℕ → ℕ → Option ℕ → LogicalStage → ℕ × Option ℕ × LogicalStage
step_logical flag f g cell lock LogicalStage.acquire =
    let (lock', s) = acquired g lock in (cell, lock', s)
step_logical flag f g cell lock LogicalStage.locked =
    (cell, lock, if flag then computed (f cell) else LogicalStage.leaving cell)
step_logical flag f g cell lock (LogicalStage.leaving v) = (cell, none, LogicalStage.over v)
step_logical flag f g cell lock (LogicalStage.over v) = (cell, lock, LogicalStage.over v)
step_logical flag f g cell lock LogicalStage.trapped = (cell, lock, LogicalStage.trapped)

module _ (flag : ℕ → Bool) (prog : ℕ → ℕ → Option ℕ) where
  abbrev step : ℕ → SharedLogical → SharedLogical
  step g s =
      let (cell, lock, stage) = step_logical (flag g) (prog g) g s.cell s.lock (s.stage g) in
      record { cell = cell; lock = lock; stage = update s.stage g stage }

  -- The threads of a list make an access each, one after the other.
  abbrev run : List ℕ → SharedLogical → SharedLogical
  run [] s = s
  run (g ∷ gs) s = run gs (step g s)

  step_logical-cell :
      (b : Bool) (f : ℕ → Option ℕ) (g cell : ℕ) (lock : Option ℕ) (t : LogicalStage)
      → (step_logical b f g cell lock t).0 ≡ cell
  unfolding step_logical
  step_logical-cell b f g cell lock acquire = refl
  step_logical-cell b f g cell lock locked = refl
  step_logical-cell b f g cell lock trapped = refl
  step_logical-cell b f g cell lock (leaving v) = refl
  step_logical-cell b f g cell lock (over v) = refl

  -- After any interleaving the cell holds what it held at first: every update is lost.
  run-lost : (schedule : List ℕ) (s : SharedLogical) → (run schedule s).cell ≡ s.cell
  run-lost [] s = refl
  run-lost (g ∷ gs) s =
      run-lost gs (step g s) ∙ step_logical-cell (flag g) (prog g) g s.cell s.lock (s.stage g)
