-- ===== src/Atomic/Critical/Words/Linear.antt =====
-- Interleavings of reads and updates of a cell of two words, and what the lock keeps whole.
use hpx_mp.Base.{
  ℕ, ◌≡◌, ◌≢◌, refl, sym, ◌∙◌, ap, subst, ◌⊎◌, inl, inr, Option, none, some, List, [], ◌∷◌,
}
use hpx_mp.Atomic.Serial.{Commit, lookup, Serial}
use hpx_mp.Atomic.Critical.Words.{
  word_0, word_1, words, whole, Access, WordStage, SharedWords, take_lock, of_result, with_value,
  step_words, step, run_words, start, outcome,
}
use hpx_mp.Atomic.Critical.Words.Holds.{
  effect, Holds, Holds-free, IsWhole, whole-words, moved, quiet_step, others_hold, taken,
  commit_step,
}

module _ (prog : ℕ → Access) (x : ℕ) where
  -- There is a value and a history after a step to this state.
  abbrev Goes : SharedWords → Type 0
  Goes s = (y : ℕ) × (h : List Commit) × IsWhole prog x y s h

  take-Goes :
      {y : ℕ} {s : SharedWords} {h : List Commit} (g : ℕ) (lock : Option ℕ)
      → IsWhole prog x y s h
      → s.stage g ≡ WordStage.acquire
      → s.lock ≡ lock
      → Goes (moved prog x g s s.cell (take_lock g lock).0 (take_lock g lock).1)
  take-Goes {y} {s} {h} g none w at unheld =
      let whole_cell : s.cell ≡ words y = elim w.free [ inl ne ↦ absurd (ne unheld) | inr e ↦ e ] in
      (
        y,
        h,
        quiet_step prog x g s.cell (some g) WordStage.locked w (sym (ap outcome at))
            (refl, whole_cell)
            (λ j ne.
              Holds-free (prog j) y y s.cell s.cell s.lock (some g) j (s.stage j) (λ e. cc)
                (w.holds j))
            (inr whole_cell),
      )
  take-Goes {y} {s} {h} g (some owner) w at shut = (
    y,
    h,
    quiet_step prog x g s.cell (some owner) WordStage.acquire w (sym (ap outcome at)) tt
        (λ j ne. subst (λ k. Holds (prog j) y s.cell k j (s.stage j)) shut (w.holds j))
        (inl (λ e. cc)),
  )

  -- The second word is read: `y` is the whole value.
  value-Goes :
      {y : ℕ} {s : SharedWords} {h : List Commit} (g : ℕ) (k : Access)
      → IsWhole prog x y s h
      → s.lock ≡ some g
      → s.cell ≡ words y
      → outcome (s.stage g) ≡ none
      → prog g ≡ k
      → Goes (moved prog x g s s.cell s.lock (with_value k y))
  unfolding with_value
  value-Goes {y} {s} g Access.read w own same new does =
      (y, _, commit_step prog x g y s.cell w own new (ap (λ k. effect k y) does) same)
  value-Goes {y} {s} {h} g (Access.change f) w own same new does =
      by_result (f y) (ap (λ k. effect k y) does)
    where
      by_result :
          (r : Option ℕ)
          → effect (prog g) y ≡ r
          → Goes (moved prog x g s s.cell s.lock (of_result y r))
      by_result none e = (
        y,
        h,
        quiet_step prog x g s.cell s.lock WordStage.trapped w (sym new) own
            (others_hold prog x g y s.cell s.lock w own) (inr same),
      )
      by_result (some n) e = (
        y,
        h,
        quiet_step prog x g s.cell s.lock (WordStage.computed y n) w (sym new) (own, same, refl, e)
            (others_hold prog x g y s.cell s.lock w own) (inr same),
      )

  -- The state after a step of thread `g`, which is at `u`.
  abbrev after : ℕ → SharedWords → WordStage → SharedWords
  after g s u =
      let (cell, lock, stage) = step_words (prog g) g s.cell s.lock u in
      moved prog x g s cell lock stage

  after-Goes :
      {y : ℕ} {s : SharedWords} {h : List Commit} (g : ℕ) (u : WordStage)
      → IsWhole prog x y s h
      → s.stage g ≡ u
      → Goes (after g s u)
  unfolding step_words
  after-Goes {s = s} g WordStage.acquire w at = take-Goes g s.lock w at refl
  after-Goes {y} {s} {h} g WordStage.locked w at =
      let (own, same) = subst (Holds (prog g) y s.cell s.lock g) at (w.holds g) in
      (
        y,
        h,
        quiet_step prog x g s.cell s.lock (WordStage.half s.cell.0) w (sym (ap outcome at))
            (own, same, ap (λ c. c.0) same) (others_hold prog x g y s.cell s.lock w own) (inr same),
      )
  after-Goes {y} {s} {h} g (WordStage.half a) w at =
      let (own, same, first) = subst (Holds (prog g) y s.cell s.lock g) at (w.holds g) in
      let v : whole a s.cell.1 ≡ y =
        ap (λ (c : ℕ × ℕ). whole c.0 c.1) (λ t. (first t, (same t).1)) ∙ whole-words y in
      subst (λ n. Goes (moved prog x g s s.cell s.lock (with_value (prog g) n))) (sym v)
        (value-Goes g (prog g) w own same (ap outcome at) refl)
  after-Goes {y} {s} {h} g (WordStage.computed o n) w at =
      let (own, same, found, does) = subst (Holds (prog g) y s.cell s.lock g) at (w.holds g) in
      let cell' : ℕ × ℕ = (word_0 n, s.cell.1) in
      (
        y,
        h,
        quiet_step prog x g cell' s.lock (WordStage.half_stored o n) w (sym (ap outcome at))
            (own, refl, found, does) (others_hold prog x g y cell' s.lock w own)
            (inl (taken prog x g s.lock own)),
      )
  after-Goes {y} {s} {h} g (WordStage.half_stored o n) w at =
      let (own, first, found, does) = subst (Holds (prog g) y s.cell s.lock g) at (w.holds g) in
      let cell' : ℕ × ℕ = (s.cell.0, word_1 n) in
      subst (λ m. Goes (moved prog x g s cell' s.lock (WordStage.over m n))) found
        (
          n,
          _,
          commit_step prog x g n cell' w own (ap outcome at) (ap (effect (prog g)) found ∙ does)
              (λ t. (first t, word_1 n)),
        )
  after-Goes {y} {s} {h} g (WordStage.over o n) w at =
      let (own, same) = subst (Holds (prog g) y s.cell s.lock g) at (w.holds g) in
      (
        y,
        h,
        quiet_step prog x g s.cell none (WordStage.released o n) w (sym (ap outcome at)) tt
            (others_hold prog x g y s.cell none w own) (inr same),
      )
  after-Goes {y} {s} {h} g (WordStage.released o n) w at = (
    y,
    h,
    quiet_step prog x g s.cell s.lock (WordStage.released o n) w (sym (ap outcome at)) tt
        (λ j ne. w.holds j) w.free,
  )
  after-Goes {y} {s} {h} g WordStage.trapped w at =
      let own : s.lock ≡ some g = subst (Holds (prog g) y s.cell s.lock g) at (w.holds g) in
      (
        y,
        h,
        quiet_step prog x g s.cell s.lock WordStage.trapped w (sym (ap outcome at)) own
            (λ j ne. w.holds j) w.free,
      )

  run-Goes :
      (schedule : List ℕ) (y : ℕ) (s : SharedWords) (h : List Commit)
      → IsWhole prog x y s h
      → Goes (run_words prog schedule s)
  unfolding run_words step
  run-Goes [] y s h w = (y, h, w)
  run-Goes (g ∷ gs) y s h w =
      let (y', h', w') = after-Goes g (s.stage g) w refl in run-Goes gs y' (step prog g s) h' w'

  start-IsWhole : IsWhole prog x x (start x) []
  unfolding start
  start-IsWhole = record {
    serial = Serial.untouched;
    recorded = λ g. refl;
    holds = λ g. tt;
    free = inr refl;
  }

  -- After any interleaving of the accesses to single words by any number of threads that read a cell
  -- of two words or update it under one lock, those that are over have been done one after the other,
  -- each once and in one piece, and each thread found and left what it has in that order: a read
  -- returns a whole value that the updates before it left. Where no thread has the lock, the cell
  -- holds what they have left.
  pub run_words-Serial :
      (schedule : List ℕ)
      → (y : ℕ) × (h : List Commit) × Serial (λ g. effect (prog g)) x h y
        × ((g : ℕ) → outcome ((run_words prog schedule (start x)).stage g) ≡ lookup h g)
        × (((run_words prog schedule (start x)).lock ≢ none)
            ⊎ ((run_words prog schedule (start x)).cell ≡ words y))
  run_words-Serial schedule =
      let (y, h, w) = run-Goes schedule x (start x) [] start-IsWhole in
      (y, h, w.serial, w.recorded, w.free)
