-- ===== src/Atomic/LockFree/Linear.antt =====
-- Interleavings of the routines of src/kmp_atomic.cpp without a lock, against `Serial`.
use mathlib.Core.Option.{some-injective}
use hpx_mp.Base.{
  ℕ, ◌≡◌, refl, sym, ◌∙◌, ◌⊎◌, inl, inr, Option, none, some, List, [], ◌∷◌, arith, ◌==◌, ==_iff,
  if◌then◌else◌, Bool-cases, update, update-all, update_self, update_ne, subst, ap,
}
use hpx_mp.Atomic.Serial.{Commit, lookup, Serial}
use hpx_mp.Atomic.LockFree.{
  Routine, Stage, loaded, load_cmpxchg, compare_and_store, step_routine, Shared, step, run, start,
  update_of, outcome,
}

-- What a thread is about to store is the update of what it read; where it stores that only for
-- some values, it read one of them.
abbrev Ready : Routine → Stage → Type 0
Ready r (Stage.store o n) = update_of r o ≡ some n
Ready r s = Unit

-- A step leaves the cell alone, or it does the thread's update in one piece.
abbrev Advance : Routine → ℕ → Stage → ℕ × Stage → Type 0
Advance r x s (y, t) =
    ((y ≡ x) × (outcome t ≡ outcome s))
    ⊎ ((outcome s ≡ none) × (outcome t ≡ some (x, y)) × (update_of r x ≡ some y))

loaded-Ready :
    (f : ℕ → Option ℕ) (x : ℕ) (r : Option ℕ)
    → f x ≡ r
    → Ready (Routine.cmpxchg f) (loaded x r) × (outcome (loaded x r) ≡ none)
unfolding update_of
loaded-Ready f x none e = (tt, refl)
loaded-Ready f x (some n) e = (e, refl)

load-Ready :
    (f : ℕ → Option ℕ) (x : ℕ)
    → Ready (Routine.cmpxchg f) (load_cmpxchg f x) × (outcome (load_cmpxchg f x) ≡ none)
unfolding load_cmpxchg
load-Ready f x = loaded-Ready f x (f x) refl

cas-Advance :
    (r : Routine) (x o n : ℕ)
    → update_of r o ≡ some n
    → Advance r x (Stage.store o n) (compare_and_store x o n)
unfolding compare_and_store
cas-Advance r x o n e = elim (Bool-cases (x == o)) [
  | inl same ↦
      let found : x ≡ o = (==_iff x o).0 same in
      rw same (inr (refl, ap (λ k. some (k, n)) (sym found), ap (update_of r) found ∙ e))
  | inr other ↦ rw other (inl (refl, refl))
]

cas-Ready : (r : Routine) (x o n : ℕ) → Ready r (compare_and_store x o n).1
unfolding compare_and_store
cas-Ready r x o n = elim (Bool-cases (x == o)) [ inl same ↦ rw same tt | inr other ↦ rw other tt ]

-- A read puts back what it found.
kept_value : (x o n : ℕ) → o ≡ n → (if x == o then n else x) ≡ x
kept_value x o n e = ground arith

step-Advance : (r : Routine) (x : ℕ) (s : Stage) → Ready r s → Advance r x s (step_routine r x s)
unfolding step_routine update_of
step-Advance (Routine.test_then_add bits v) x Stage.enter e = inr (refl, refl, refl)
step-Advance (Routine.test_then_add bits v) x Stage.read e = inl (refl, refl)
step-Advance (Routine.test_then_add bits v) x (Stage.store o n) e = inl (refl, refl)
step-Advance (Routine.test_then_add bits v) x (Stage.done o n) e = inl (refl, refl)
step-Advance (Routine.test_then_add bits v) x Stage.trapped e = inl (refl, refl)
step-Advance (Routine.xchg v) x Stage.enter e = inr (refl, refl, refl)
step-Advance (Routine.xchg v) x Stage.read e = inl (refl, refl)
step-Advance (Routine.xchg v) x (Stage.store o n) e = inl (refl, refl)
step-Advance (Routine.xchg v) x (Stage.done o n) e = inl (refl, refl)
step-Advance (Routine.xchg v) x Stage.trapped e = inl (refl, refl)
step-Advance (Routine.cmpxchg f) x Stage.enter e = inl (refl, (load-Ready f x).1)
step-Advance (Routine.cmpxchg f) x Stage.read e = inl (refl, (load-Ready f x).1)
step-Advance (Routine.cmpxchg f) x (Stage.store o n) e = cas-Advance (Routine.cmpxchg f) x o n e
step-Advance (Routine.cmpxchg f) x (Stage.done o n) e = inl (refl, refl)
step-Advance (Routine.cmpxchg f) x Stage.trapped e = inl (refl, refl)
step-Advance Routine.cmpxchg_read x Stage.enter e = inl (refl, refl)
step-Advance Routine.cmpxchg_read x Stage.read e = inl (refl, refl)
step-Advance Routine.cmpxchg_read x (Stage.store o n) e =
    let kept = kept_value x o n (some-injective _ _ e) in
    inr (refl, ap (λ k. some (x, k)) (sym kept), ap some (sym kept))
step-Advance Routine.cmpxchg_read x (Stage.done o n) e = inl (refl, refl)
step-Advance Routine.cmpxchg_read x Stage.trapped e = inl (refl, refl)
step-Advance (Routine.min_max needs rhs) x Stage.enter e = elim (Bool-cases (needs x)) [
  | inl more ↦ rw more (inl (refl, refl))
  | inr over ↦ rw over (inr (refl, refl, refl))
]
step-Advance (Routine.min_max needs rhs) x Stage.read e = elim (Bool-cases (needs x)) [
  | inl more ↦ rw more (inl (refl, refl))
  | inr over ↦ rw over (inr (refl, refl, refl))
]
step-Advance (Routine.min_max needs rhs) x (Stage.store o n) e =
    cas-Advance (Routine.min_max needs rhs) x o n e
step-Advance (Routine.min_max needs rhs) x (Stage.done o n) e = inl (refl, refl)
step-Advance (Routine.min_max needs rhs) x Stage.trapped e = inl (refl, refl)

step-Ready : (r : Routine) (x : ℕ) (s : Stage) → Ready r s → Ready r (step_routine r x s).1
unfolding step_routine update_of
step-Ready (Routine.test_then_add bits v) x Stage.enter e = tt
step-Ready (Routine.test_then_add bits v) x Stage.read e = tt
step-Ready (Routine.test_then_add bits v) x (Stage.store o n) e = e
step-Ready (Routine.test_then_add bits v) x (Stage.done o n) e = tt
step-Ready (Routine.test_then_add bits v) x Stage.trapped e = tt
step-Ready (Routine.xchg v) x Stage.enter e = tt
step-Ready (Routine.xchg v) x Stage.read e = tt
step-Ready (Routine.xchg v) x (Stage.store o n) e = e
step-Ready (Routine.xchg v) x (Stage.done o n) e = tt
step-Ready (Routine.xchg v) x Stage.trapped e = tt
step-Ready (Routine.cmpxchg f) x Stage.enter e = (load-Ready f x).0
step-Ready (Routine.cmpxchg f) x Stage.read e = (load-Ready f x).0
step-Ready (Routine.cmpxchg f) x (Stage.store o n) e = cas-Ready (Routine.cmpxchg f) x o n
step-Ready (Routine.cmpxchg f) x (Stage.done o n) e = tt
step-Ready (Routine.cmpxchg f) x Stage.trapped e = tt
step-Ready Routine.cmpxchg_read x Stage.enter e = refl
step-Ready Routine.cmpxchg_read x Stage.read e = tt
step-Ready Routine.cmpxchg_read x (Stage.store o n) e = tt
step-Ready Routine.cmpxchg_read x (Stage.done o n) e = tt
step-Ready Routine.cmpxchg_read x Stage.trapped e = tt
step-Ready (Routine.min_max needs rhs) x Stage.enter e = elim (Bool-cases (needs x)) [
  | inl more ↦ rw more tt
  | inr over ↦ rw over tt
]
step-Ready (Routine.min_max needs rhs) x Stage.read e = elim (Bool-cases (needs x)) [
  | inl more ↦ rw more (ap (λ b. some (if b then rhs else x)) more)
  | inr over ↦ rw over tt
]
step-Ready (Routine.min_max needs rhs) x (Stage.store o n) e =
    cas-Ready (Routine.min_max needs rhs) x o n
step-Ready (Routine.min_max needs rhs) x (Stage.done o n) e = tt
step-Ready (Routine.min_max needs rhs) x Stage.trapped e = tt

-- The state of an interleaving, and the updates that it has finished.
record IsSerial (prog : ℕ → Routine) (x : ℕ) (s : Shared) (h : List Commit) : Type 0 where
  serial : Serial (λ g. update_of (prog g)) x h s.cell
  recorded : (g : ℕ) → outcome (s.stage g) ≡ lookup h g
  ready : (g : ℕ) → Ready (prog g) (s.stage g)

module _ (prog : ℕ → Routine) (x : ℕ) where
  step-IsSerial :
      (g : ℕ) (s : Shared) (h : List Commit)
      → IsSerial prog x s h
      → (h' : List Commit) × IsSerial prog x (step prog g s) h'
  unfolding step
  step-IsSerial g s h w =
      let (y, t) = step_routine (prog g) s.cell (s.stage g) in
      let ready' : (j : ℕ) → Ready (prog j) (update s.stage g t j) =
        update-all (λ j u. Ready (prog j) u) s.stage g t
          (step-Ready (prog g) s.cell (s.stage g) (w.ready g)) (λ j ne. w.ready j) in
      elim (step-Advance (prog g) s.cell (s.stage g) (w.ready g)) [
        | inl (same, quiet) ↦ (
          h,
          record {
            serial = subst (Serial (λ j. update_of (prog j)) x h) (sym same) w.serial;
            recorded =
                update-all (λ j u. outcome u ≡ lookup h j) s.stage g t (quiet ∙ w.recorded g)
                  (λ j ne. w.recorded j);
            ready = ready';
          },
        )
        | inr (before, after, does) ↦
            let c : Commit = record { thread = g; old_value = s.cell; new_value = y } in
            (
              c ∷ h,
              record {
                serial = Serial.commit g w.serial (sym (w.recorded g) ∙ before) does;
                recorded =
                    update-all (λ j u. outcome u ≡ lookup (c ∷ h) j) s.stage g t
                      (after ∙ sym (update_self (lookup h) g (some (s.cell, y))))
                      (λ j ne. w.recorded j ∙ sym (update_ne (lookup h) g j (some (s.cell, y)) ne));
                ready = ready';
              },
            )
      ]

  run-IsSerial :
      (schedule : List ℕ) (s : Shared) (h : List Commit)
      → IsSerial prog x s h
      → (h' : List Commit) × IsSerial prog x (run prog schedule s) h'
  unfolding run
  run-IsSerial [] s h w = (h, w)
  run-IsSerial (g ∷ gs) s h w =
      let (h', w') = step-IsSerial g s h w in run-IsSerial gs (step prog g s) h' w'

  start-IsSerial : IsSerial prog x (start x) []
  unfolding start
  start-IsSerial = record { serial = Serial.untouched; recorded = λ g. refl; ready = λ g. tt }

  -- After any interleaving of the steps of any number of threads, the cell holds what the updates
  -- of the threads that are done make of it one after the other, each of them once, and each such
  -- thread found and left the values that it has in that order.
  pub run-Serial :
      (schedule : List ℕ)
      → (h : List Commit) × Serial (λ g. update_of (prog g)) x h (run prog schedule (start x)).cell
        × ((g : ℕ) → outcome ((run prog schedule (start x)).stage g) ≡ lookup h g)
  run-Serial schedule =
      let (h, w) = run-IsSerial schedule (start x) [] start-IsSerial in (h, w.serial, w.recorded)
