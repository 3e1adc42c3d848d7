-- ===== src/Lock/Effect.antt =====
-- What a call of src/intel_hpxMP.cpp that returns has found at the lock, and done to it.
use hpx_mp.Base.{
  ℕ, ◌≡◌, ◌⊎◌, inl, inr, true, false, some, arith, update, update_same, Option-cases, Bool-cases,
}
use hpx_mp.Lock.{Spinlock, Locks, done, lock_call, unlock_call, try_lock_call, as_int}

module _ (spin : Spinlock) where
  -- A call that takes a lock found it free.
  pub lock_call_done :
      (a : ℕ) (s t : Locks spin)
      → lock_call spin a s ≡ done t
      → (m l : spin.State) × (s.cell a ≡ some m)
        × (spin.held m ≡ false)
        × (spin.held l ≡ true)
        × (t ≡ record s { cell = update s.cell a (some l) })
  unfolding lock_call
  lock_call_done a s t e = elim (Option-cases (s.cell a)) [
    | inl gone ↦ absurd (ground (arith, gone))
    | inr (m, at) ↦ elim (Bool-cases (spin.held m)) [
      | inl held ↦ absurd (ground (arith, at, spin.lock_held m held))
      | inr free ↦
          let (l, taken, held) = spin.lock_free m free in
          (m, l, at, free, held, ground (arith, at, taken))
    ]
  ]

  -- A test that gives 1 found the lock free; one that gives 0 changes nothing.
  pub try_lock_call_done :
      (a result : ℕ) (s t : Locks spin)
      → as_int spin (try_lock_call spin a s) ≡ some (t, result)
      → ((result ≡ 0) × (t ≡ s))
        ⊎ ((m l : spin.State) × (result ≡ 1)
            × (s.cell a ≡ some m)
            × (spin.held m ≡ false)
            × (spin.held l ≡ true)
            × (t ≡ record s { cell = update s.cell a (some l) }))
  unfolding try_lock_call
  try_lock_call_done a result s t e = elim (Option-cases (s.cell a)) [
    | inl gone ↦ absurd (ground (arith, gone))
    | inr (m, at) ↦ elim (Bool-cases (spin.held m)) [
      | inl held ↦
          inl (ground (arith, at, spin.try_lock_held m held, update_same s.cell a (some m) at))
      | inr free ↦
          let (taken, held) = spin.try_lock_free m free in
          inr (
            m,
            (spin.try_lock m).0,
            ground (arith, at, taken),
            at,
            free,
            held,
            ground (arith, at, taken),
          )
    ]
  ]

  pub unlock_call_done :
      (a : ℕ) (s t : Locks spin)
      → unlock_call spin a s ≡ done t
      → (m : spin.State) × (t ≡ record s { cell = update s.cell a (some m) })
  unfolding unlock_call
  unlock_call_done a s t e = elim (Option-cases (s.cell a)) [
    | inl gone ↦ absurd (ground (arith, gone))
    | inr (m, at) ↦ (spin.unlock m, ground (arith, at))
  ]
