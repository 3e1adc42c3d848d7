-- ===== src/Atomic/Critical/Capture/Linear.antt =====
-- Interleavings of the critical sections of src/kmp_atomic.cpp that capture a value: what is
-- captured, and that the capture changes nothing else.
use hpx_mp.Base.{
  ℕ, ◌≡◌, ◌⊎◌, inl, inr, refl, sym, ◌∙◌, Bool, true, false, Option, none, some, List, [], ◌∷◌,
  update, update-all, update_self, update_ne, subst, ap,
}
use hpx_mp.Atomic.Serial.{Commit, lookup, Serial}
use hpx_mp.Atomic.Fixed.{captured}
use hpx_mp.Atomic.Critical.{Stage, Shared, computed, step_critical, step, run, start, outcome}
use hpx_mp.Atomic.Critical.Linear.{run_critical-Serial}
use hpx_mp.Atomic.Critical.Capture.{
  CaptureStage, SharedCpt, computed_cpt, step_capture, step_cpt, run_cpt, start_cpt, forget,
}
use hpx_mp.Atomic.Critical.Capture.Holds.{Holds, mine-Holds, others-Holds}

computed-forget : (v : Option ℕ) (o : ℕ) (r : Option ℕ) → computed o r ≡ forget (computed_cpt v o r)
computed-forget v o none = refl
computed-forget v o (some n) = refl

-- An access is a step of the section without the capture, or changes nothing but the capture.
step_capture-forget :
    (flag : Bool) (f : ℕ → Option ℕ) (g cell : ℕ) (lock : Option ℕ) (u : CaptureStage)
    → (step_critical f g cell lock (forget u) ≡ (
      (step_capture flag f g cell lock u).0,
      (step_capture flag f g cell lock u).1,
      forget (step_capture flag f g cell lock u).2,
    ))
      ⊎ (((step_capture flag f g cell lock u).0 ≡ cell)
          × ((step_capture flag f g cell lock u).1 ≡ lock)
          × (forget (step_capture flag f g cell lock u).2 ≡ forget u))
unfolding step_critical step_capture
step_capture-forget flag f g cell none CaptureStage.acquire = inl refl
step_capture-forget flag f g cell (some owner) CaptureStage.acquire = inl refl
step_capture-forget true f g cell lock CaptureStage.locked =
    inl (ap (λ (t : Stage). (cell, lock, t)) (computed-forget none cell (f cell)))
step_capture-forget false f g cell lock CaptureStage.locked = inr (refl, refl, refl)
step_capture-forget flag f g cell lock (CaptureStage.kept v) =
    inl (ap (λ (t : Stage). (cell, lock, t)) (computed-forget (some v) cell (f cell)))
step_capture-forget flag f g cell lock (CaptureStage.loaded v o n) = inl refl
step_capture-forget flag f g cell lock (CaptureStage.stored none o n) = inr (refl, refl, refl)
step_capture-forget flag f g cell lock (CaptureStage.stored (some v) o n) = inl refl
step_capture-forget flag f g cell lock (CaptureStage.read_back v o n) = inl refl
step_capture-forget flag f g cell lock (CaptureStage.released v o n) = inl refl
step_capture-forget flag f g cell lock CaptureStage.trapped = inl refl

-- The same cell, lock and stages but for the capture.
record Matches (s : SharedCpt) (t : Shared) : Type 0 where
  cell : s.cell ≡ t.cell
  lock : s.lock ≡ t.lock
  stage : (g : ℕ) → forget (s.stage g) ≡ t.stage g

module _ (flag : ℕ → Bool) (prog : ℕ → ℕ → Option ℕ) where
  -- One access of thread `g`.
  abbrev taken : ℕ → SharedCpt → ℕ × Option ℕ × CaptureStage
  taken g s = step_capture (flag g) (prog g) g s.cell s.lock (s.stage g)

  same_step :
      (g : ℕ) (s : SharedCpt) (t : Shared)
      → Matches s t
      → step_critical (prog g) g s.cell s.lock (forget (s.stage g))
        ≡ ((taken g s).0, (taken g s).1, forget (taken g s).2)
      → Matches (step_cpt flag prog g s) (step prog g t)
  unfolding step_cpt step
  same_step g s t m e =
      let does : step_critical (prog g) g t.cell t.lock (t.stage g)
          ≡ ((taken g s).0, (taken g s).1, forget (taken g s).2) =
        rw (sym m.cell) (rw (sym m.lock) (rw (sym (m.stage g)) e)) in
      let next = (step_critical (prog g) g t.cell t.lock (t.stage g)).2 in
      record {
        cell = sym (ap (λ (k : ℕ × Option ℕ × Stage). k.0) does);
        lock = sym (ap (λ (k : ℕ × Option ℕ × Stage). k.1) does);
        stage =
            update-all (λ j u. forget u ≡ update t.stage g next j) s.stage g (taken g s).2
              (sym (ap (λ (k : ℕ × Option ℕ × Stage). k.2) does) ∙ sym (update_self t.stage g next))
              (λ j ne. m.stage j ∙ sym (update_ne t.stage g j next ne));
      }

  quiet_step :
      (g : ℕ) (s : SharedCpt) (t : Shared)
      → Matches s t
      → (taken g s).0 ≡ s.cell
      → (taken g s).1 ≡ s.lock
      → forget (taken g s).2 ≡ forget (s.stage g)
      → Matches (step_cpt flag prog g s) t
  unfolding step_cpt
  quiet_step g s t m ec el ef = record {
    cell = ec ∙ m.cell;
    lock = el ∙ m.lock;
    stage =
        update-all (λ j u. forget u ≡ t.stage j) s.stage g (taken g s).2 (ef ∙ m.stage g)
          (λ j ne. m.stage j);
  }

  run-Matches :
      (schedule : List ℕ) (s : SharedCpt) (t : Shared)
      → Matches s t
      → (schedule' : List ℕ) × Matches (run_cpt flag prog schedule s) (run prog schedule' t)
  unfolding run_cpt run
  run-Matches [] s t m = ([], m)
  run-Matches (g ∷ gs) s t m =
      elim (step_capture-forget (flag g) (prog g) g s.cell s.lock (s.stage g)) [
        | inl e ↦
            (let (gs', m') =
                run-Matches gs (step_cpt flag prog g s) (step prog g t) (same_step g s t m e) in
              (g ∷ gs', m'))
        | inr (ec, el, ef) ↦ run-Matches gs (step_cpt flag prog g s) t (quiet_step g s t m ec el ef)
      ]

  abbrev AllHold : SharedCpt → Type 0
  AllHold s = (j : ℕ) → Holds (flag j) (prog j) s.cell s.lock j (s.stage j)

  run-AllHold :
      (schedule : List ℕ) (s : SharedCpt) → AllHold s → AllHold (run_cpt flag prog schedule s)
  unfolding run_cpt step_cpt
  run-AllHold [] s w = w
  run-AllHold (g ∷ gs) s w = run-AllHold gs (step_cpt flag prog g s) (
      update-all (λ j u. Holds (flag j) (prog j) (taken g s).0 (taken g s).1 j u) s.stage g
        (taken g s).2 (mine-Holds (flag g) (prog g) g s.cell s.lock (s.stage g) (w g))
        (λ j ne.
          others-Holds (flag g) (flag j) (prog g) (prog j) g j s.cell s.lock (s.stage g) (s.stage j)
            ne (w g) (w j)))

  start-Matches : (x : ℕ) → Matches (start_cpt x) (start x)
  unfolding start_cpt start
  start-Matches x = record { cell = refl; lock = refl; stage = λ g. refl }

  start-AllHold : (x : ℕ) → AllHold (start_cpt x)
  unfolding start_cpt
  start-AllHold x = λ j. tt

  -- After any interleaving of the accesses of any number of threads that update a cell and capture a
  -- value under one lock, each with its own flag, the cell holds what the updates that have been
  -- written make of it one after the other, each of them once; and every thread that is done has
  -- captured the value that its own update left there where its flag is set, and else the value that
  -- its own update found there.
  pub run_cpt-captured :
      (x : ℕ) (schedule : List ℕ)
      → (h : List Commit) × Serial prog x h (run_cpt flag prog schedule (start_cpt x)).cell
        × ((g o n v : ℕ)
            → (run_cpt flag prog schedule (start_cpt x)).stage g ≡ CaptureStage.released v o n
            → (v ≡ captured (flag g) (o, n)) × (lookup h g ≡ some (o, n)))
  run_cpt-captured x schedule =
      let (schedule', m) = run-Matches schedule (start_cpt x) (start x) (start-Matches x) in
      let (h, serial, recorded) = run_critical-Serial prog x schedule' in
      let w = run-AllHold schedule (start_cpt x) (start-AllHold x) in
      let s = run_cpt flag prog schedule (start_cpt x) in
      (
        h,
        subst (Serial prog x h) (sym m.cell) serial,
        λ g o n v at. (
          subst (Holds (flag g) (prog g) s.cell s.lock g) at (w g),
          sym (recorded g) ∙ sym (ap outcome (m.stage g)) ∙ ap (λ u. outcome (forget u)) at,
        ),
      )
