-- ===== src/Lock/Families.antt =====
-- The four families of calls on locks, as one call with the family as an argument.
use hpx_mp.Base.{ℕ, ◌≡◌, refl, Option}
use hpx_mp.Lock.{
  Spinlock, Locks, Outcome, new_lock, delete_lock, lock_call, unlock_call, try_lock_call, as_int,
  kmpc_init_lock, kmpc_init_nest_lock, omp_init_lock, omp_init_nest_lock, kmpc_destroy_lock,
  kmpc_destroy_nest_lock, omp_destroy_lock, omp_destroy_nest_lock, kmpc_set_lock,
  kmpc_set_nest_lock, omp_set_lock, omp_set_nest_lock, kmpc_unset_lock, kmpc_unset_nest_lock,
  omp_unset_lock, omp_unset_nest_lock, kmpc_test_lock, kmpc_test_nest_lock, omp_test_lock,
  omp_test_nest_lock,
}

pub data Family : Type 0 where
  kmpc kmpc_nest omp omp_nest : Family

module _ (spin : Spinlock) where
  abbrev pub init_lock : Family → Locks spin → Locks spin × ℕ
  init_lock kmpc s = kmpc_init_lock spin s
  init_lock kmpc_nest s = kmpc_init_nest_lock spin s
  init_lock omp s = omp_init_lock spin s
  init_lock omp_nest s = omp_init_nest_lock spin s

  abbrev pub destroy_lock : Family → ℕ → Locks spin → Locks spin
  destroy_lock kmpc a s = kmpc_destroy_lock spin a s
  destroy_lock kmpc_nest a s = kmpc_destroy_nest_lock spin a s
  destroy_lock omp a s = omp_destroy_lock spin a s
  destroy_lock omp_nest a s = omp_destroy_nest_lock spin a s

  abbrev pub set_lock : Family → ℕ → Locks spin → Outcome spin
  set_lock kmpc a s = kmpc_set_lock spin a s
  set_lock kmpc_nest a s = kmpc_set_nest_lock spin a s
  set_lock omp a s = omp_set_lock spin a s
  set_lock omp_nest a s = omp_set_nest_lock spin a s

  abbrev pub unset_lock : Family → ℕ → Locks spin → Outcome spin
  unset_lock kmpc a s = kmpc_unset_lock spin a s
  unset_lock kmpc_nest a s = kmpc_unset_nest_lock spin a s
  unset_lock omp a s = omp_unset_lock spin a s
  unset_lock omp_nest a s = omp_unset_nest_lock spin a s

  abbrev pub test_lock : Family → ℕ → Locks spin → Option (Locks spin × ℕ)
  test_lock kmpc a s = kmpc_test_lock spin a s
  test_lock kmpc_nest a s = kmpc_test_nest_lock spin a s
  test_lock omp a s = omp_test_lock spin a s
  test_lock omp_nest a s = omp_test_nest_lock spin a s

  pub init_lock-same : (f : Family) (s : Locks spin) → init_lock f s ≡ new_lock spin s
  unfolding kmpc_init_lock kmpc_init_nest_lock omp_init_lock omp_init_nest_lock
  init_lock-same kmpc s = refl
  init_lock-same kmpc_nest s = refl
  init_lock-same omp s = refl
  init_lock-same omp_nest s = refl

  pub destroy_lock-same :
      (f : Family) (a : ℕ) (s : Locks spin) → destroy_lock f a s ≡ delete_lock spin a s
  unfolding kmpc_destroy_lock kmpc_destroy_nest_lock omp_destroy_lock omp_destroy_nest_lock
  destroy_lock-same kmpc a s = refl
  destroy_lock-same kmpc_nest a s = refl
  destroy_lock-same omp a s = refl
  destroy_lock-same omp_nest a s = refl

  pub set_lock-same : (f : Family) (a : ℕ) (s : Locks spin) → set_lock f a s ≡ lock_call spin a s
  unfolding kmpc_set_lock kmpc_set_nest_lock omp_set_lock omp_set_nest_lock
  set_lock-same kmpc a s = refl
  set_lock-same kmpc_nest a s = refl
  set_lock-same omp a s = refl
  set_lock-same omp_nest a s = refl

  pub unset_lock-same :
      (f : Family) (a : ℕ) (s : Locks spin) → unset_lock f a s ≡ unlock_call spin a s
  unfolding kmpc_unset_lock kmpc_unset_nest_lock omp_unset_lock omp_unset_nest_lock
  unset_lock-same kmpc a s = refl
  unset_lock-same kmpc_nest a s = refl
  unset_lock-same omp a s = refl
  unset_lock-same omp_nest a s = refl

  pub test_lock-same :
      (f : Family) (a : ℕ) (s : Locks spin) → test_lock f a s ≡ as_int spin (try_lock_call spin a s)
  unfolding kmpc_test_lock kmpc_test_nest_lock omp_test_lock omp_test_nest_lock
  test_lock-same kmpc a s = refl
  test_lock-same kmpc_nest a s = refl
  test_lock-same omp a s = refl
  test_lock-same omp_nest a s = refl
