-- ===== src/Lock/Exclusive.antt =====
-- Threads that set, test and unset locks in any order; a thread unsets a lock that it holds, and a
-- lock is destroyed while nobody holds it.
use hpx_mp.Base.{
  ℕ, ◌≤◌, ◌≡◌, inl, inr, subst, Bool, true, false, ◌&&◌, none, some, arith, ◌==◌, if◌then◌else◌,
  update, update_self, update_ne, Bool-cases, ℕ_discrete,
}
use hpx_mp.Lock.{Spinlock, Locks, done, new_lock, delete_lock}
use hpx_mp.Lock.Families.{Family, init_lock, destroy_lock, set_lock, unset_lock, test_lock}

module _ (spin : Spinlock) where
  pub record System : Type 0 where
    pub locks : Locks spin
    pub holds : ℕ → ℕ → Bool

  -- Thread `i` takes or gives back lock `a`.
  abbrev pub mark : ℕ → ℕ → Bool → (ℕ → ℕ → Bool) → ℕ → ℕ → Bool
  mark i a v holds j b = if (i == j) && (a == b) then v else holds j b

  abbrev pub initial : System
  initial = record { locks = record { next = 0; cell = λ a. none }; holds = λ i a. false }

  pub data Step (s : System) : System → Type 0 where
    inits : (f : Family) → Step s (record s { locks = (init_lock spin f s.locks).0 })
    destroys :
        (f : Family) (a : ℕ)
        → ((j : ℕ) → s.holds j a ≡ false)
        → Step s (record s { locks = destroy_lock spin f a s.locks })
    sets :
        (f : Family) (i a : ℕ) (t : Locks spin)
        → set_lock spin f a s.locks ≡ done t
        → Step s (record { locks = t; holds = mark i a true s.holds })
    tests :
        (f : Family) (i a result : ℕ) (t : Locks spin)
        → test_lock spin f a s.locks ≡ some (t, result)
        → Step s
            (record { locks = t; holds = if result == 0 then s.holds else mark i a true s.holds })
    unsets :
        (f : Family) (i a : ℕ) (t : Locks spin)
        → s.holds i a ≡ true
        → unset_lock spin f a s.locks ≡ done t
        → Step s (record { locks = t; holds = mark i a false s.holds })

  pub data Reach : System → Type 0 where
    start : Reach initial
    later : {s t : System} → Reach s → Step s t → Reach t

  -- A lock that a thread holds is there and is held, by that thread alone.
  pub record IsExclusive (s : System) : Type 0 where
    pub held_by :
        (i a : ℕ)
        → s.holds i a ≡ true
        → (m : spin.State) × (s.locks.cell a ≡ some m) × (spin.held m ≡ true)
    pub one : (i j a : ℕ) → s.holds i a ≡ true → s.holds j a ≡ true → i ≡ j
    pub unmade : (a : ℕ) → s.locks.next ≤ a → s.locks.cell a ≡ none

  -- Lock `a` is free, so nobody holds it.
  free_held :
      (s : System) (a : ℕ) (m : spin.State) (j : ℕ)
      → IsExclusive s
      → s.locks.cell a ≡ some m
      → spin.held m ≡ false
      → s.holds j a ≡ false
  free_held s a m j w e f = elim (Bool-cases (s.holds j a)) [
    | inl h ↦ let (l, at, held) = w.held_by j a h in absurd (ground (arith, at, held))
    | inr h ↦ h
  ]

  pub take-IsExclusive :
      (s : System) (i a : ℕ) (m l : spin.State)
      → s.locks.cell a ≡ some m
      → spin.held m ≡ false
      → spin.held l ≡ true
      → IsExclusive s
      → IsExclusive (record {
        locks = record s.locks { cell = update s.locks.cell a (some l) };
        holds = mark i a true s.holds;
      })
  take-IsExclusive s i a m l e f h w = record {
    held_by = λ j b p. elim (ℕ_discrete a b) [
      | yes q ↦ (
        l,
        subst (λ k. update s.locks.cell a (some l) k ≡ some l) q
            (update_self s.locks.cell a (some l)),
        h,
      )
      | no ne ↦ rw (update_ne s.locks.cell a b (some l) ne) (w.held_by j b (ground arith))
    ];
    one =
        λ j k b p q. ground (arith, free_held s a m j w e f, free_held s a m k w e f, w.one j k b);
    unmade = λ b le. ground (arith, w.unmade b, w.unmade a);
  }

  pub give-IsExclusive :
      (s : System) (i a : ℕ) (m : spin.State)
      → s.holds i a ≡ true
      → IsExclusive s
      → IsExclusive (record {
        locks = record s.locks { cell = update s.locks.cell a (some m) };
        holds = mark i a false s.holds;
      })
  give-IsExclusive s i a m h w = record {
    held_by = λ j b p.
        let still : s.holds j b ≡ true = ground (arith) in
        elim (ℕ_discrete a b) [
          | yes q ↦ absurd (ground (arith, w.one j i b still, q))
          | no ne ↦ rw (update_ne s.locks.cell a b (some m) ne) (w.held_by j b still)
        ];
    one = λ j k b p q. ground (arith, w.one j k b);
    unmade = λ b le. ground (arith, w.unmade b, w.unmade a, w.held_by i a h);
  }

  pub new-IsExclusive :
      (s : System) → IsExclusive s → IsExclusive (record s { locks = (new_lock spin s.locks).0 })
  unfolding new_lock
  new-IsExclusive s w = record {
    held_by =
        λ j b p. let (l, at, held) = w.held_by j b p in (l, ground (arith, at, w.unmade b), held);
    one = w.one;
    unmade = λ b le. ground (arith, w.unmade b);
  }

  pub delete-IsExclusive :
      (s : System) (a : ℕ)
      → ((j : ℕ) → s.holds j a ≡ false)
      → IsExclusive s
      → IsExclusive (record s { locks = delete_lock spin a s.locks })
  unfolding delete_lock
  delete-IsExclusive s a free w = record {
    held_by = λ j b p. let (l, at, held) = w.held_by j b p in (l, ground (arith, at, free j), held);
    one = w.one;
    unmade = λ b le. ground (arith, w.unmade b);
  }
