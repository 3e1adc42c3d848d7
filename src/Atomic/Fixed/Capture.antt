-- ===== src/Atomic/Fixed/Capture.antt =====
-- `MIN_MAX_COMPXCHG_CPT` of src/kmp_atomic.cpp, the maximum and the minimum that capture a value,
-- among other threads that change the cell.
use hpx_mp.Base.{
  ℕ, ◌≡◌, ◌⊎◌, inl, inr, refl, Bool, true, false, arith, ◌==◌, if◌then◌else◌, Bool-cases, subst,
}
use hpx_mp.Base.Int.{ltb_ℤ}
use hpx_mp.Atomic.Fixed.{Kind, value, captured}

-- Where the thread is: at `if ( *lhs OP rhs )`, at the read and test of the loop, before
-- `KMP_COMPARE_AND_STORE` with `old_value`, at `return *lhs`, or at the end, with the value that it
-- returns.
pub data CptStage : Type 0 where
  checking looping returning : CptStage
  storing over : ℕ → CptStage

module _ (needs : ℕ → Bool) (rhs : ℕ) (flag : Bool) where
  -- One access to the cell.
  unfoldable pub step_min_max_cpt : ℕ → CptStage → ℕ × CptStage
  step_min_max_cpt cell checking = (cell, if needs cell then looping else returning)
  step_min_max_cpt cell looping =
      (cell, if needs cell then storing cell else over (if flag then rhs else cell))
  step_min_max_cpt cell (storing old_value) =
      if cell == old_value then (rhs, over (if flag then rhs else old_value)) else (cell, looping)
  step_min_max_cpt cell returning = (cell, over cell)
  step_min_max_cpt cell (over v) = (cell, over v)

  -- The thread's steps, and other threads' writes, which do not bring back a value that the
  -- operation would still replace.
  pub data Run (x : ℕ) : ℕ → CptStage → Type 0 where
    start : Run x x checking
    mine :
        {cell : ℕ} {s : CptStage} (cell' : ℕ) (s' : CptStage)
        → Run x cell s
        → step_min_max_cpt cell s ≡ (cell', s')
        → Run x cell' s'
    other :
        {cell : ℕ} {s : CptStage} (y : ℕ)
        → Run x cell s
        → (needs y ≡ false) ⊎ (needs cell ≡ true)
        → Run x y s

  -- What holds at each stage.
  abbrev IsRight : ℕ → CptStage → Type 0
  IsRight cell checking = Unit {0}
  IsRight cell looping = Unit {0}
  IsRight cell returning = needs cell ≡ false
  IsRight cell (storing old_value) = needs old_value ≡ true
  IsRight cell (over v) = Unit {0}

  -- A thread that has not returned.
  abbrev pub is_busy : CptStage → Bool
  is_busy checking = true
  is_busy looping = true
  is_busy returning = true
  is_busy (storing old_value) = true
  is_busy (over v) = false

  -- What an access does that finds `cell` and leaves `cell'`: it leaves what the operation makes of
  -- the value found where the thread returns after it, and else the value itself.
  abbrev pub IsCapture : ℕ → ℕ → CptStage → Type 0
  IsCapture cell cell' (over v) =
      (cell' ≡ (if needs cell then rhs else cell))
      × ((v ≡ captured flag (cell, cell')) ⊎ ((flag ≡ true) × (needs cell ≡ false) × (v ≡ rhs)))
  IsCapture cell cell' checking = cell' ≡ cell
  IsCapture cell cell' looping = cell' ≡ cell
  IsCapture cell cell' returning = cell' ≡ cell
  IsCapture cell cell' (storing old_value) = cell' ≡ cell

  other-IsRight :
      (cell y : ℕ) (s : CptStage)
      → (needs y ≡ false) ⊎ (needs cell ≡ true)
      → IsRight cell s
      → IsRight y s
  other-IsRight cell y checking h w = w
  other-IsRight cell y looping h w = w
  other-IsRight cell y returning h w = ground (arith, h)
  other-IsRight cell y (storing o) h w = w
  other-IsRight cell y (over v) h w = w

  step-IsRight :
      (cell : ℕ) (s : CptStage)
      → IsRight cell s
      → IsRight (step_min_max_cpt cell s).0 (step_min_max_cpt cell s).1
  unfolding step_min_max_cpt
  step-IsRight cell checking w = elim (Bool-cases (needs cell)) [
    | inl more ↦ rw more tt
    | inr done ↦ rw done done
  ]
  step-IsRight cell looping w = elim (Bool-cases (needs cell)) [
    | inl more ↦ rw more more
    | inr done ↦ rw done tt
  ]
  step-IsRight cell (storing o) w = elim (Bool-cases (cell == o)) [
    | inl same ↦ rw same tt
    | inr changed ↦ rw changed tt
  ]
  step-IsRight cell returning w = tt
  step-IsRight cell (over v) w = w

  Run-IsRight : (x cell : ℕ) (s : CptStage) → Run x cell s → IsRight cell s
  Run-IsRight x cell s start = tt
  Run-IsRight x cell s (mine {cell = before} {s = stage} cell' s' past e) =
      subst (λ (p : ℕ × CptStage). IsRight p.0 p.1) e
        (step-IsRight before stage (Run-IsRight x before stage past))
  Run-IsRight x cell s (other {cell = before} y past h) =
      other-IsRight before cell s h (Run-IsRight x before s past)

  kept : (cell : ℕ) → needs cell ≡ false → IsCapture cell cell (over (if flag then rhs else cell))
  unfolding captured
  kept cell done = elim (Bool-cases flag) [
    | inl set ↦ (ground (arith, done), inr (set, done, ground (arith, set)))
    | inr unset ↦ (ground (arith, done), inl (ground (arith, unset)))
  ]

  stored :
      (cell o : ℕ)
      → (cell == o) ≡ true
      → needs o ≡ true
      → IsCapture cell rhs (over (if flag then rhs else o))
  unfolding captured
  stored cell o same more = let e : cell ≡ o = ground arith in rw e (ground (arith, more), inl refl)

  step-IsCapture :
      (cell : ℕ) (s : CptStage)
      → is_busy s ≡ true
      → IsRight cell s
      → IsCapture cell (step_min_max_cpt cell s).0 (step_min_max_cpt cell s).1
  unfolding step_min_max_cpt captured
  step-IsCapture cell checking b w = elim (Bool-cases (needs cell)) [
    | inl more ↦ rw more refl
    | inr done ↦ rw done refl
  ]
  step-IsCapture cell looping b w = elim (Bool-cases (needs cell)) [
    | inl more ↦ rw more refl
    | inr done ↦ rw done (kept cell done)
  ]
  step-IsCapture cell (storing o) b w = elim (Bool-cases (cell == o)) [
    | inl same ↦ rw same (stored cell o same w)
    | inr changed ↦ rw changed refl
  ]
  step-IsCapture cell returning b w = (ground (arith, w), inl (ground arith))
  step-IsCapture cell (over v) b w = absurd (ground (arith, b))

  -- Among other threads that do not bring back a value that the operation would still replace: an
  -- access of the thread that is not its last leaves in the cell the value that it finds; the one
  -- after which the thread returns leaves what the operation makes of the value that it finds, and
  -- the thread returns the one of the two that the flag asks for, or, where the flag is set and the
  -- operation leaves the value that it finds, its operand.
  pub min_max_cpt-captured :
      (x cell : ℕ) (s : CptStage)
      → Run x cell s
      → is_busy s ≡ true
      → IsCapture cell (step_min_max_cpt cell s).0 (step_min_max_cpt cell s).1
  min_max_cpt-captured x cell s run busy = step-IsCapture cell s busy (Run-IsRight x cell s run)

-- `*lhs OP rhs` of the maximum and of the minimum.
unfoldable pub max_needs : Kind → ℕ → ℕ → Bool
max_needs k b old_value = ltb_ℤ (value k old_value) (value k b)

unfoldable pub min_needs : Kind → ℕ → ℕ → Bool
min_needs k b old_value = ltb_ℤ (value k b) (value k old_value)
