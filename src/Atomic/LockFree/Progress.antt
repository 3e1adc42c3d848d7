-- ===== src/Atomic/LockFree/Progress.antt =====
-- A routine of src/kmp_atomic.cpp without a lock, with the thread left alone.
use hpx_mp.Base.{ℕ, zero, suc, ◌≡◌, refl, inl, inr, true, ◌==◌, Bool-cases, Option-cases, ==_iff}
use hpx_mp.Atomic.LockFree.{Routine, Stage, load_cmpxchg, compare_and_store, step_routine}

-- A routine is over.
abbrev pub IsOver : Stage → Type 0
IsOver (Stage.done o n) = Unit
IsOver Stage.trapped = Unit
IsOver s = ⊥

-- The stages that the routine comes to.
abbrev pub Reaches : Routine → Stage → Type 0
Reaches (Routine.test_then_add bits v) Stage.read = ⊥
Reaches (Routine.test_then_add bits v) (Stage.store o n) = ⊥
Reaches (Routine.xchg v) Stage.read = ⊥
Reaches (Routine.xchg v) (Stage.store o n) = ⊥
Reaches Routine.cmpxchg_read Stage.read = ⊥
Reaches r s = Unit

unfoldable pub steps : ℕ → Routine → ℕ × Stage → ℕ × Stage
steps zero r at = at
steps (suc n) r at = let (x, s) = at in steps n r (step_routine r x s)

same : (x : ℕ) → (x == x) ≡ true
same x = (==_iff x x).1 refl

-- From a stage that the routine comes to, three steps of a thread that nobody comes between end its
-- routine, whatever the cell holds.
pub solo-IsOver : (r : Routine) (x : ℕ) (s : Stage) → Reaches r s → IsOver (steps 3 r (x, s)).1
unfolding steps step_routine load_cmpxchg compare_and_store
solo-IsOver (Routine.test_then_add bits v) x Stage.enter h = tt
solo-IsOver (Routine.test_then_add bits v) x Stage.read h = absurd h
solo-IsOver (Routine.test_then_add bits v) x (Stage.store o n) h = absurd h
solo-IsOver (Routine.test_then_add bits v) x (Stage.done o n) h = tt
solo-IsOver (Routine.test_then_add bits v) x Stage.trapped h = tt
solo-IsOver (Routine.xchg v) x Stage.enter h = tt
solo-IsOver (Routine.xchg v) x Stage.read h = absurd h
solo-IsOver (Routine.xchg v) x (Stage.store o n) h = absurd h
solo-IsOver (Routine.xchg v) x (Stage.done o n) h = tt
solo-IsOver (Routine.xchg v) x Stage.trapped h = tt
solo-IsOver (Routine.cmpxchg f) x Stage.enter h = elim (Option-cases (f x)) [
  | inl e ↦ rw e tt
  | inr (n, e) ↦ rw (e, same x) tt
]
solo-IsOver (Routine.cmpxchg f) x Stage.read h = elim (Option-cases (f x)) [
  | inl e ↦ rw e tt
  | inr (n, e) ↦ rw (e, same x) tt
]
solo-IsOver (Routine.cmpxchg f) x (Stage.store o n) h = elim (Bool-cases (x == o)) [
  | inl hit ↦ rw hit tt
  | inr miss ↦ elim (Option-cases (f x)) [
    | inl e ↦ rw miss (rw e tt)
    | inr (m, e) ↦ rw miss (rw (e, same x) tt)
  ]
]
solo-IsOver (Routine.cmpxchg f) x (Stage.done o n) h = tt
solo-IsOver (Routine.cmpxchg f) x Stage.trapped h = tt
solo-IsOver Routine.cmpxchg_read x Stage.enter h = tt
solo-IsOver Routine.cmpxchg_read x Stage.read h = absurd h
solo-IsOver Routine.cmpxchg_read x (Stage.store o n) h = tt
solo-IsOver Routine.cmpxchg_read x (Stage.done o n) h = tt
solo-IsOver Routine.cmpxchg_read x Stage.trapped h = tt
solo-IsOver (Routine.min_max needs rhs) x Stage.enter h = elim (Bool-cases (needs x)) [
  | inl more ↦ rw more (rw more (rw (same x) tt))
  | inr over ↦ rw over tt
]
solo-IsOver (Routine.min_max needs rhs) x Stage.read h = elim (Bool-cases (needs x)) [
  | inl more ↦ rw more (rw (same x) tt)
  | inr over ↦ rw over tt
]
solo-IsOver (Routine.min_max needs rhs) x (Stage.store o n) h = elim (Bool-cases (x == o)) [
  | inl hit ↦ rw hit tt
  | inr miss ↦ elim (Bool-cases (needs x)) [
    | inl more ↦ rw miss (rw more (rw (same x) tt))
    | inr over ↦ rw miss (rw over tt)
  ]
]
solo-IsOver (Routine.min_max needs rhs) x (Stage.done o n) h = tt
solo-IsOver (Routine.min_max needs rhs) x Stage.trapped h = tt
