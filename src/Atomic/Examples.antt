-- ===== src/Atomic/Examples.antt =====
-- Concrete interleavings for the theorems on atomic updates.
use hpx_mp.Base.{
  Bool, inr, ℕ, ◌+◌, ◌*◌, ◌≤◌, ◌<◌, ◌^◌, ◌≡◌, true, refl, ◌↔◌, some, none, Option, List, [], ◌∷◌,
  arith, ◌==◌, if◌then◌else◌,
}
use hpx_mp.Base.Int.{◌-ℤ◌}
use hpx_mp.Atomic.Serial.{Commit, lookup, Serial}
use hpx_mp.Atomic.LockFree.{
  Routine, Stage, Shared, run, step, start, step_routine, update_of, outcome,
}
use hpx_mp.Atomic.LockFree.Linear.{run-Serial}
use hpx_mp.Atomic.LockFree.Progress.{IsOver, steps, solo-IsOver}
use hpx_mp.Atomic.Fixed.{Kind, width, Op, result, atomic_update, atomic_max, captured}
use hpx_mp.Atomic.Fixed.Typed
use hpx_mp.Atomic.Fixed.Typed.{run-typed}
use hpx_mp.Atomic.Fixed.Capture
use hpx_mp.Atomic.Fixed.Capture.{max_needs, step_min_max_cpt, min_max_cpt-captured}
use hpx_mp.Atomic.Wide.{critical_cpt}
use hpx_mp.Atomic.Critical.Capture.{
  SharedCpt, CaptureStage, run_cpt, step_cpt, start_cpt, step_capture,
}
use hpx_mp.Atomic.Critical.Capture.Linear.{run_cpt-captured}

-- Thread 0 multiplies by 3 and the others subtract 2; thread 1 comes between thread 0's two steps.
abbrev threads : ℕ → Routine
threads g =
    if g == 0 then atomic_update Op.mul Kind.fixed4 3 else atomic_update Op.sub Kind.fixed4 2

abbrev schedule : List ℕ
schedule = 0 ∷ 1 ∷ 0 ∷ 0 ∷ 0 ∷ []

run-Serial_example :
    (h : List Commit) × Serial
      (λ g. update_of (threads g))
      7
      h
      (run threads schedule (start 7)).cell
    × ((g : ℕ) → outcome ((run threads schedule (start 7)).stage g) ≡ lookup h g)
run-Serial_example = run-Serial threads 7 schedule

solo-IsOver_example : IsOver (steps 3 (threads 0) (9, Stage.store 7 21)).1
unfolding atomic_update
solo-IsOver_example = solo-IsOver (threads 0) 9 (Stage.store 7 21) tt

abbrev addend : ℕ → ℕ
addend g = 5

two_done :
    (g : ℕ)
    → (outcome ((run (λ j. Routine.test_then_add 32 (addend j)) (1 ∷ 0 ∷ []) (start 4)).stage g)
        ≡ none)
      ↔ (2 ≤ g)
unfolding run step start step_routine
two_done g = ground arith

-- Thread 0 captures what it finds, thread 1 what it leaves.
abbrev after : ℕ → Bool
after g = g == 1

abbrev captures : ℕ → ℕ → Option ℕ
captures g = critical_cpt ◌*◌ (g + 2)

abbrev both_done : SharedCpt
both_done = run_cpt after captures (1 ∷ 0 ∷ 1 ∷ 1 ∷ 1 ∷ 1 ∷ 0 ∷ 0 ∷ 0 ∷ 0 ∷ 0 ∷ []) (start_cpt 7)

both_done_stage :
    (both_done.stage 1 ≡ CaptureStage.released 21 7 21)
    × (both_done.stage 0 ≡ CaptureStage.released 21 21 42)
    × (both_done.cell ≡ 42)
unfolding run_cpt step_cpt start_cpt step_capture critical_cpt
both_done_stage = (refl, refl, refl)

run_cpt-captured_example :
    (h : List Commit) × Serial captures 7 h both_done.cell
    × ((g o n v : ℕ)
        → both_done.stage g ≡ CaptureStage.released v o n
        → (v ≡ captured (after g) (o, n)) × (lookup h g ≡ some (o, n)))
run_cpt-captured_example =
    run_cpt-captured after captures 7 (1 ∷ 0 ∷ 1 ∷ 1 ∷ 1 ∷ 1 ∷ 0 ∷ 0 ∷ 0 ∷ 0 ∷ 0 ∷ [])

abbrev operand : ℕ → ℕ
operand g = g * 10

abbrev maxima : Shared
maxima = run (λ g. atomic_max Kind.fixed4 (operand g)) (1 ∷ 2 ∷ 2 ∷ 1 ∷ 2 ∷ 1 ∷ 1 ∷ []) (start 15)

-- A maximum of 5 that is overtaken by 9 between its test and its loop: it returns 5.
overtaken : Capture.Run (max_needs Kind.fixed4 5) 5 true 3 9 Capture.CptStage.looping
unfolding max_needs step_min_max_cpt
overtaken =
    Capture.Run.other 9 (Capture.Run.mine 3 Capture.CptStage.looping Capture.Run.start refl)
      (inr refl)

overtaken_value :
    step_min_max_cpt (max_needs Kind.fixed4 5) 5 true 9 Capture.CptStage.looping
    ≡ (9, Capture.CptStage.over 5)
unfolding max_needs step_min_max_cpt
overtaken_value = refl

min_max_cpt-captured_example :
    let after = step_min_max_cpt (max_needs Kind.fixed4 5) 5 true 9 Capture.CptStage.looping in
    Capture.IsCapture (max_needs Kind.fixed4 5) 5 true 9 after.0 after.1
min_max_cpt-captured_example =
    min_max_cpt-captured (max_needs Kind.fixed4 5) 5 true 3 9 Capture.CptStage.looping overtaken
      refl

-- Thread 0 shifts to the left and the others subtract 9 from an `unsigned char`, which wraps.
abbrev shift_or_sub : ℕ → Op
shift_or_sub g = if g == 0 then Op.shl else Op.sub

abbrev three_or_nine : ℕ → ℕ
three_or_nine g = if g == 0 then 3 else 9

three_or_nine-lt : (g : ℕ) → three_or_nine g < 2 ^ width Kind.fixed1u
three_or_nine-lt g = ground arith

abbrev bytes : Shared
bytes =
    run (λ g. atomic_update (shift_or_sub g) Kind.fixed1u (three_or_nine g))
      (0 ∷ 1 ∷ 1 ∷ 0 ∷ 1 ∷ 0 ∷ 0 ∷ 0 ∷ []) (start 7)

bytes_cell : bytes.cell ≡ 240
unfolding run step start step_routine atomic_update result ◌-ℤ◌
bytes_cell = refl

run-typed_example :
    (bytes.cell < 2 ^ width Kind.fixed1u)
    × ((h : List Commit) × Serial
          (Typed.operation Kind.fixed1u shift_or_sub three_or_nine 7 three_or_nine-lt (omega arith))
          7
          h
          bytes.cell
        × ((g : ℕ) → outcome (bytes.stage g) ≡ lookup h g))
run-typed_example =
    run-typed Kind.fixed1u shift_or_sub three_or_nine 7 three_or_nine-lt (omega arith)
      (0 ∷ 1 ∷ 1 ∷ 0 ∷ 1 ∷ 0 ∷ 0 ∷ 0 ∷ [])
