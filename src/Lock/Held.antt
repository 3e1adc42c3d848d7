-- ===== src/Lock/Held.antt =====
-- What a lock that a thread holds is to the other calls.
use hpx_mp.Base.{
  ℕ, ◌≡◌, ◌⊎◌, inl, inr, refl, sym, true, false, some, arith, update_same, Bool-cases, ◌∙◌,
}
use hpx_mp.Lock.{Spinlock, waits, lock_call, try_lock_call, as_int}
use hpx_mp.Lock.Families.{
  Family, set_lock, test_lock, init_lock-same, destroy_lock-same, set_lock-same, unset_lock-same,
  test_lock-same,
}
use hpx_mp.Lock.Effect.{lock_call_done, try_lock_call_done, unlock_call_done}
use hpx_mp.Lock.Exclusive.{
  System, Step, inits, destroys, sets, tests, unsets, Reach, start, later, IsExclusive,
  take-IsExclusive, give-IsExclusive, new-IsExclusive, delete-IsExclusive,
}

module _ (spin : Spinlock) where
  Step-IsExclusive : (s t : System spin) → Step spin s t → IsExclusive spin s → IsExclusive spin t
  Step-IsExclusive s t (inits f) w = rw (init_lock-same spin f s.locks) (new-IsExclusive spin s w)
  Step-IsExclusive s t (destroys f a free) w =
      rw (destroy_lock-same spin f a s.locks) (delete-IsExclusive spin s a free w)
  Step-IsExclusive s t (sets f i a u e) w =
      let (m, l, at, free, held, same) =
        lock_call_done spin a s.locks u (sym (set_lock-same spin f a s.locks) ∙ e) in
      rw same (take-IsExclusive spin s i a m l at free held w)
  Step-IsExclusive s t (tests f i a result u e) w =
      elim (try_lock_call_done spin a result s.locks u
        (sym (test_lock-same spin f a s.locks) ∙ e)) [
          | inl (r, same) ↦ rw (r, same) w
          | inr (m, l, r, at, free, held, same) ↦
              rw (r, same) (take-IsExclusive spin s i a m l at free held w)
        ]
  Step-IsExclusive s t (unsets f i a u h e) w =
      let (m, same) =
        unlock_call_done spin a s.locks u (sym (unset_lock-same spin f a s.locks) ∙ e) in
      rw same (give-IsExclusive spin s i a m h w)

  Reach-IsExclusive : (s : System spin) → Reach spin s → IsExclusive spin s
  Reach-IsExclusive s start = record {
    held_by = λ i a h. cc;
    one = λ i j a h k. cc;
    unmade = λ a h. refl;
  }
  Reach-IsExclusive s (later {s = r} past st) = Step-IsExclusive r s st (Reach-IsExclusive r past)

  -- Whatever locks the threads have made, set, tested, unset and destroyed, by any of the four
  -- families of calls, each unsetting only what it holds and none destroying what is held: while a
  -- thread holds a lock, no other holds it, every call that sets it waits, and every test gives 0
  -- and changes nothing, also for nestable locks and for the thread that holds it.
  pub held_lock :
      (s : System spin) (i a : ℕ)
      → Reach spin s
      → s.holds i a ≡ true
      → ((j : ℕ) → (i ≡ j) ⊎ (s.holds j a ≡ false))
        × ((f : Family)
            → (set_lock spin f a s.locks ≡ waits)
              × (test_lock spin f a s.locks ≡ some (s.locks, 0)))
  unfolding lock_call try_lock_call
  held_lock s i a past h =
      let w = Reach-IsExclusive s past in
      let (m, at, held) = w.held_by i a h in
      let again : lock_call spin a s.locks ≡ waits = ground (arith, at, spin.lock_held m held) in
      let tested : as_int spin (try_lock_call spin a s.locks) ≡ some (s.locks, 0) =
        ground (arith, at, spin.try_lock_held m held, update_same s.locks.cell a (some m) at) in
      (
        λ j. elim (Bool-cases (s.holds j a)) [ inl k ↦ inl (w.one i j a h k) | inr k ↦ inr k ],
        λ f. (set_lock-same spin f a s.locks ∙ again, test_lock-same spin f a s.locks ∙ tested),
      )
