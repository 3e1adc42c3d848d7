-- ===== src/Atomic/Critical/Linear.antt =====
-- Interleavings of the critical sections of src/kmp_atomic.cpp, and who holds the lock in them.
use mathlib.Core.Option.{some-injective}
use hpx_mp.Base.{
  ℕ, ◌≡◌, ◌≢◌, refl, sym, ◌∙◌, Option, none, some, List, [], ◌∷◌, update, update-all, update_self,
  update_ne, subst, ap,
}
use hpx_mp.Atomic.Serial.{Commit, lookup, Serial}
use hpx_mp.Atomic.Critical.{
  Stage, Shared, acquired, computed, step_critical, step, run, start, outcome,
}

-- Who is between acquiring and releasing holds the lock; what it read is what the cell holds.
abbrev Holds : (ℕ → Option ℕ) → ℕ → Option ℕ → ℕ → Stage → Type 0
Holds f cell lock g Stage.acquire = Unit
Holds f cell lock g Stage.locked = lock ≡ some g
Holds f cell lock g (Stage.loaded o n) = (lock ≡ some g) × (cell ≡ o) × (f o ≡ some n)
Holds f cell lock g (Stage.stored o n) = lock ≡ some g
Holds f cell lock g (Stage.released o n) = Unit
Holds f cell lock g Stage.trapped = lock ≡ some g

-- Who does not hold the lock has nothing to lose.
Holds-free :
    (f : ℕ → Option ℕ) (cell cell' : ℕ) (lock lock' : Option ℕ) (g : ℕ) (s : Stage)
    → lock ≢ some g
    → Holds f cell lock g s
    → Holds f cell' lock' g s
Holds-free f cell cell' lock lock' g Stage.acquire ne h = tt
Holds-free f cell cell' lock lock' g Stage.locked ne h = absurd (ne h)
Holds-free f cell cell' lock lock' g (Stage.loaded o n) ne h = absurd (ne h.0)
Holds-free f cell cell' lock lock' g (Stage.stored o n) ne h = absurd (ne h)
Holds-free f cell cell' lock lock' g (Stage.released o n) ne h = tt
Holds-free f cell cell' lock lock' g Stage.trapped ne h = absurd (ne h)

record IsSerial (prog : ℕ → ℕ → Option ℕ) (x : ℕ) (s : Shared) (h : List Commit) : Type 0 where
  serial : Serial prog x h s.cell
  recorded : (g : ℕ) → outcome (s.stage g) ≡ lookup h g
  holds : (g : ℕ) → Holds (prog g) s.cell s.lock g (s.stage g)

other_owner : (lock : Option ℕ) (g j : ℕ) → lock ≡ some g → g ≢ j → lock ≢ some j
other_owner lock g j e ne e' = ne (some-injective _ _ (sym e ∙ e'))

module _ (prog : ℕ → ℕ → Option ℕ) (x : ℕ) where
  -- A step that leaves the cell alone.
  quiet_step :
      (g : ℕ) (s : Shared) (h : List Commit) (lock' : Option ℕ) (t : Stage)
      → IsSerial prog x s h
      → outcome t ≡ outcome (s.stage g)
      → Holds (prog g) s.cell lock' g t
      → ((j : ℕ) → g ≢ j → Holds (prog j) s.cell lock' j (s.stage j))
      → IsSerial prog x (record { cell = s.cell; lock = lock'; stage = update s.stage g t }) h
  quiet_step g s h lock' t w same mine others = record {
    serial = w.serial;
    recorded =
        update-all (λ j u. outcome u ≡ lookup h j) s.stage g t (same ∙ w.recorded g)
          (λ j ne. w.recorded j);
    holds = update-all (λ j u. Holds (prog j) s.cell lock' j u) s.stage g t mine others;
  }

  -- What the other threads hold while this one has the lock.
  others_hold :
      (g : ℕ) (s : Shared) (h : List Commit) (cell' : ℕ) (lock' : Option ℕ)
      → IsSerial prog x s h
      → s.lock ≡ some g
      → (j : ℕ) → g ≢ j
      → Holds (prog j) cell' lock' j (s.stage j)
  others_hold g s h cell' lock' w own j ne =
      Holds-free (prog j) s.cell cell' s.lock lock' j (s.stage j) (other_owner s.lock g j own ne)
        (w.holds j)

  -- The state after a step of thread `g`, which is at `u`.
  abbrev after : ℕ → Shared → Stage → Shared
  after g s u =
      let (cell, lock, stage) = step_critical (prog g) g s.cell s.lock u in
      record { cell = cell; lock = lock; stage = update s.stage g stage }

  acquire-IsSerial :
      (g : ℕ) (s : Shared) (h : List Commit) (lock : Option ℕ)
      → IsSerial prog x s h
      → s.stage g ≡ Stage.acquire
      → s.lock ≡ lock
      → IsSerial prog x
          (record {
            cell = s.cell;
            lock = (acquired g lock).0;
            stage = update s.stage g (acquired g lock).1;
          })
          h
  acquire-IsSerial g s h none w at free =
      quiet_step g s h (some g) Stage.locked w (sym (ap outcome at)) refl (λ j ne.
        Holds-free (prog j) s.cell s.cell s.lock (some g) j (s.stage j) (λ e. cc) (w.holds j))
  acquire-IsSerial g s h (some owner) w at taken =
      quiet_step g s h (some owner) Stage.acquire w (sym (ap outcome at)) tt
        (λ j ne. subst (λ k. Holds (prog j) s.cell k j (s.stage j)) taken (w.holds j))

  computed-Holds :
      (g cell : ℕ) (lock : Option ℕ) (r : Option ℕ)
      → lock ≡ some g
      → prog g cell ≡ r
      → Holds (prog g) cell lock g (computed cell r) × (outcome (computed cell r) ≡ none)
  computed-Holds g cell lock none own e = (own, refl)
  computed-Holds g cell lock (some n) own e = ((own, refl, e), refl)

  after-IsSerial :
      (g : ℕ) (s : Shared) (h : List Commit) (u : Stage)
      → IsSerial prog x s h
      → s.stage g ≡ u
      → (h' : List Commit) × IsSerial prog x (after g s u) h'
  unfolding step_critical
  after-IsSerial g s h Stage.acquire w at = (h, acquire-IsSerial g s h s.lock w at refl)
  after-IsSerial g s h Stage.locked w at =
      let own : s.lock ≡ some g = subst (Holds (prog g) s.cell s.lock g) at (w.holds g) in
      let (mine, quiet) = computed-Holds g s.cell s.lock (prog g s.cell) own refl in
      (
        h,
        quiet_step g s h s.lock (computed s.cell (prog g s.cell)) w (quiet ∙ sym (ap outcome at))
            mine (others_hold g s h s.cell s.lock w own),
      )
  after-IsSerial g s h (Stage.loaded o n) w at =
      let (own, same, does) = subst (Holds (prog g) s.cell s.lock g) at (w.holds g) in
      let c : Commit = record { thread = g; old_value = o; new_value = n } in
      (
        c ∷ h,
        record {
          serial =
              Serial.commit g (subst (Serial prog x h) same w.serial)
                (sym (w.recorded g) ∙ ap outcome at) does;
          recorded =
              update-all (λ j u. outcome u ≡ lookup (c ∷ h) j) s.stage g (Stage.stored o n)
                (sym (update_self (lookup h) g (some (o, n))))
                (λ j ne. w.recorded j ∙ sym (update_ne (lookup h) g j (some (o, n)) ne));
          holds =
              update-all (λ j u. Holds (prog j) n s.lock j u) s.stage g (Stage.stored o n) own
                (others_hold g s h n s.lock w own);
        },
      )
  after-IsSerial g s h (Stage.stored o n) w at =
      let own : s.lock ≡ some g = subst (Holds (prog g) s.cell s.lock g) at (w.holds g) in
      (
        h,
        quiet_step g s h none (Stage.released o n) w (sym (ap outcome at)) tt
            (others_hold g s h s.cell none w own),
      )
  after-IsSerial g s h (Stage.released o n) w at = (
    h,
    quiet_step g s h s.lock (Stage.released o n) w (sym (ap outcome at)) tt (λ j ne. w.holds j),
  )
  after-IsSerial g s h Stage.trapped w at =
      let own : s.lock ≡ some g = subst (Holds (prog g) s.cell s.lock g) at (w.holds g) in
      (h, quiet_step g s h s.lock Stage.trapped w (sym (ap outcome at)) own (λ j ne. w.holds j))

  run-IsSerial :
      (schedule : List ℕ) (s : Shared) (h : List Commit)
      → IsSerial prog x s h
      → (h' : List Commit) × IsSerial prog x (run prog schedule s) h'
  unfolding run step
  run-IsSerial [] s h w = (h, w)
  run-IsSerial (g ∷ gs) s h w =
      let (h', w') = after-IsSerial g s h (s.stage g) w refl in
      run-IsSerial gs (step prog g s) h' w'

  start-IsSerial : IsSerial prog x (start x) []
  unfolding start
  start-IsSerial = record { serial = Serial.untouched; recorded = λ g. refl; holds = λ g. tt }

  -- After any interleaving of the steps of any number of threads, the cell holds what the updates
  -- of the threads that have written make of it one after the other, each of them once.
  pub run_critical-Serial :
      (schedule : List ℕ)
      → (h : List Commit) × Serial prog x h (run prog schedule (start x)).cell
        × ((g : ℕ) → outcome ((run prog schedule (start x)).stage g) ≡ lookup h g)
  run_critical-Serial schedule =
      let (h, w) = run-IsSerial schedule (start x) [] start-IsSerial in (h, w.serial, w.recorded)
