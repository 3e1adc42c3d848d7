-- ===== src/Atomic/Critical/MinMax.antt =====
-- `MIN_MAX_CRITICAL_CPT` and `MIN_MAX_CRITSECT_CPT` of src/kmp_atomic.cpp: a maximum or minimum under
-- a lock that captures a value, for `_Quad`, and for the other types in the GNU mode. An access of a
-- thread at a time; the test under the lock and the read after it are one.
use hpx_mp.Base.{
  ℕ, zero, suc, ◌≡◌, refl, Bool, true, false, Option, none, some, if◌then◌else◌, Bool-cases, inl,
  inr,
}
use hpx_mp.Atomic.Fixed.{captured}

-- At the first test, before the lock, at the test under it, before the write with `old_value`,
-- before the release with `new_value`, at `return *lhs`, and at the end with what is returned: `none`
-- is a variable that nothing has been written to.
pub data MinMaxStage : Type 0 where
  checking acquire testing returning : MinMaxStage
  found : ℕ → MinMaxStage
  leaving over : Option ℕ → MinMaxStage

abbrev acquired : ℕ → Option ℕ → Option ℕ × MinMaxStage
acquired g none = (some g, MinMaxStage.testing)
acquired g (some owner) = (some owner, MinMaxStage.acquire)

module _ (needs : ℕ → Bool) (rhs : ℕ) (flag : Bool) (g : ℕ) where
  -- The cell, the thread that holds the lock, and the thread `g`.
  unfoldable pub step_min_max_lock : ℕ × Option ℕ × MinMaxStage → ℕ × Option ℕ × MinMaxStage
  step_min_max_lock (cell, lock, MinMaxStage.checking) =
      (cell, lock, if needs cell then MinMaxStage.acquire else MinMaxStage.returning)
  step_min_max_lock (cell, lock, MinMaxStage.acquire) =
      let (lock', s) = acquired g lock in (cell, lock', s)
  step_min_max_lock (cell, lock, MinMaxStage.testing) =
      (cell, lock, if needs cell then MinMaxStage.found cell else MinMaxStage.leaving none)
  step_min_max_lock (cell, lock, MinMaxStage.found old_value) =
      (rhs, lock, MinMaxStage.leaving (some (if flag then rhs else old_value)))
  step_min_max_lock (cell, lock, MinMaxStage.leaving v) = (cell, none, MinMaxStage.over v)
  step_min_max_lock (cell, lock, MinMaxStage.returning) = (cell, lock, MinMaxStage.over (some cell))
  step_min_max_lock (cell, lock, MinMaxStage.over v) = (cell, lock, MinMaxStage.over v)

  abbrev steps : ℕ → ℕ × Option ℕ × MinMaxStage → ℕ × Option ℕ × MinMaxStage
  steps zero s = s
  steps (suc n) s = steps n (step_min_max_lock s)

  -- Alone with the lock free, the routine leaves what the operation makes of the cell and returns the
  -- one of the two values that the flag asks for.
  alone-captured :
      (x : ℕ)
      → steps 5 (x, none, MinMaxStage.checking) ≡ (
        if needs x then rhs else x,
        none,
        MinMaxStage.over (some (captured flag (x, if needs x then rhs else x))),
      )
  unfolding step_min_max_lock captured
  alone-captured x = elim (Bool-cases (needs x)) [
    | inl t ↦ rw t (rw t refl)
    | inr n ↦ rw n (elim (Bool-cases flag) [ inl t ↦ rw t refl | inr u ↦ rw u refl ])
  ]

  -- Where another thread's value comes into the cell between the two tests, one that the operation
  -- would leave, the routine returns a variable without a value.
  overtaken-none :
      (x y : ℕ)
      → needs x ≡ true
      → needs y ≡ false
      → steps 3 (y, none, (step_min_max_lock (x, none, MinMaxStage.checking)).2)
        ≡ (y, none, MinMaxStage.over none)
  unfolding step_min_max_lock
  overtaken-none x y before after = rw before (rw after refl)
