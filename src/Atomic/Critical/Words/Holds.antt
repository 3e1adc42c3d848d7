-- ===== src/Atomic/Critical/Words/Holds.antt =====
-- Who has the lock of a cell of two words, and what the cell holds meanwhile.
use mathlib.Core.Option.{some-injective}
use native.Mathlib.Nat.{div-add-mod'}
use hpx_mp.Base.{
  ℕ, ◌≡◌, ◌≢◌, sym, ◌∙◌, ◌⊎◌, inr, Option, none, some, List, ◌∷◌, update, update-all, update_self,
  update_ne,
}
use hpx_mp.Atomic.Serial.{Commit, lookup, Serial}
use hpx_mp.Atomic.Critical.Words.{
  word_0, word_1, words, whole, Access, WordStage, SharedWords, outcome,
}

-- What a thread makes of a value.
abbrev pub effect : Access → ℕ → Option ℕ
effect Access.read v = some v
effect (Access.change f) v = f v

-- Who has the lock, and what the cell holds at each stage, where `y` is the value that the accesses
-- over have left.
abbrev pub Holds : Access → ℕ → ℕ × ℕ → Option ℕ → ℕ → WordStage → Type 0
Holds k y cell lock g WordStage.acquire = Unit
Holds k y cell lock g WordStage.locked = (lock ≡ some g) × (cell ≡ words y)
Holds k y cell lock g (WordStage.half a) = (lock ≡ some g) × (cell ≡ words y) × (a ≡ word_0 y)
Holds k y cell lock g (WordStage.computed o n) =
    (lock ≡ some g) × (cell ≡ words y) × (y ≡ o) × (effect k o ≡ some n)
Holds k y cell lock g (WordStage.half_stored o n) =
    (lock ≡ some g) × (cell.0 ≡ word_0 n) × (y ≡ o) × (effect k o ≡ some n)
Holds k y cell lock g (WordStage.over o n) = (lock ≡ some g) × (cell ≡ words y)
Holds k y cell lock g (WordStage.released o n) = Unit
Holds k y cell lock g WordStage.trapped = lock ≡ some g

pub Holds-free :
    (k : Access) (y y' : ℕ) (cell cell' : ℕ × ℕ) (lock lock' : Option ℕ) (g : ℕ) (s : WordStage)
    → lock ≢ some g
    → Holds k y cell lock g s
    → Holds k y' cell' lock' g s
Holds-free k y y' cell cell' lock lock' g WordStage.acquire ne h = tt
Holds-free k y y' cell cell' lock lock' g WordStage.locked ne h = absurd (ne h.0)
Holds-free k y y' cell cell' lock lock' g (WordStage.half a) ne h = absurd (ne h.0)
Holds-free k y y' cell cell' lock lock' g (WordStage.computed o n) ne h = absurd (ne h.0)
Holds-free k y y' cell cell' lock lock' g (WordStage.half_stored o n) ne h = absurd (ne h.0)
Holds-free k y y' cell cell' lock lock' g (WordStage.over o n) ne h = absurd (ne h.0)
Holds-free k y y' cell cell' lock lock' g (WordStage.released o n) ne h = tt
Holds-free k y y' cell cell' lock lock' g WordStage.trapped ne h = absurd (ne h)

other_owner : (lock : Option ℕ) (g j : ℕ) → lock ≡ some g → g ≢ j → lock ≢ some j
other_owner lock g j e ne e' = ne (some-injective _ _ (sym e ∙ e'))

pub whole-words : (y : ℕ) → whole (word_0 y) (word_1 y) ≡ y
whole-words y = div-add-mod' y _

pub record IsWhole (prog : ℕ → Access) (x y : ℕ) (s : SharedWords) (h : List Commit) : Type 0 where
  pub serial : Serial (λ g. effect (prog g)) x h y
  pub recorded : (g : ℕ) → outcome (s.stage g) ≡ lookup h g
  pub holds : (g : ℕ) → Holds (prog g) y s.cell s.lock g (s.stage g)
  pub free : (s.lock ≢ none) ⊎ (s.cell ≡ words y)

module _ (prog : ℕ → Access) (x : ℕ) where
  -- The state with thread `g` elsewhere.
  abbrev pub moved : ℕ → SharedWords → ℕ × ℕ → Option ℕ → WordStage → SharedWords
  moved g s cell lock t = record { cell = cell; lock = lock; stage = update s.stage g t }

  pub quiet_step :
      {y : ℕ} {s : SharedWords} {h : List Commit} (g : ℕ) (cell' : ℕ × ℕ) (lock' : Option ℕ)
      (t : WordStage)
      → IsWhole prog x y s h
      → outcome t ≡ outcome (s.stage g)
      → Holds (prog g) y cell' lock' g t
      → ((j : ℕ) → g ≢ j → Holds (prog j) y cell' lock' j (s.stage j))
      → (lock' ≢ none) ⊎ (cell' ≡ words y)
      → IsWhole prog x y (moved g s cell' lock' t) h
  quiet_step {y} {s} {h} g cell' lock' t w same mine others free = record {
    serial = w.serial;
    recorded =
        update-all (λ j u. outcome u ≡ lookup h j) s.stage g t (same ∙ w.recorded g)
          (λ j ne. w.recorded j);
    holds = update-all (λ j u. Holds (prog j) y cell' lock' j u) s.stage g t mine others;
    free = free;
  }

  pub others_hold :
      {y : ℕ} {s : SharedWords} {h : List Commit} (g y' : ℕ) (cell' : ℕ × ℕ) (lock' : Option ℕ)
      → IsWhole prog x y s h
      → s.lock ≡ some g
      → (j : ℕ) → g ≢ j
      → Holds (prog j) y' cell' lock' j (s.stage j)
  others_hold {y} {s} g y' cell' lock' w own j ne =
      Holds-free (prog j) y y' s.cell cell' s.lock lock' j (s.stage j)
        (other_owner s.lock g j own ne) (w.holds j)

  pub taken : (g : ℕ) (lock : Option ℕ) → lock ≡ some g → lock ≢ none
  taken g lock e e' = cc

  -- An access is over: it found `y` and left `n`.
  pub commit_step :
      {y : ℕ} {s : SharedWords} {h : List Commit} (g n : ℕ) (cell' : ℕ × ℕ)
      → IsWhole prog x y s h
      → s.lock ≡ some g
      → outcome (s.stage g) ≡ none
      → effect (prog g) y ≡ some n
      → cell' ≡ words n
      → IsWhole prog x n
          (moved g s cell' s.lock (WordStage.over y n))
          (record { thread = g; old_value = y; new_value = n } ∷ h)
  commit_step {y} {s} {h} g n cell' w own new does same =
      let c : Commit = record { thread = g; old_value = y; new_value = n } in
      record {
        serial = Serial.commit g w.serial (sym (w.recorded g) ∙ new) does;
        recorded =
            update-all (λ j u. outcome u ≡ lookup (c ∷ h) j) s.stage g (WordStage.over y n)
              (sym (update_self (lookup h) g (some (y, n))))
              (λ j ne. w.recorded j ∙ sym (update_ne (lookup h) g j (some (y, n)) ne));
        holds =
            update-all (λ j u. Holds (prog j) n cell' s.lock j u) s.stage g (WordStage.over y n)
              (own, same) (others_hold g n cell' s.lock w own);
        free = inr same;
      }
