-- ===== src/Lock.antt =====
-- The locks of src/intel_hpxMP.cpp, under their names for programs (`omp_*_lock`) and for the
-- compiler (`__kmpc_*_lock`), simple and nestable. `omp_lock_t` is HPX's spinlock: a parameter.
mod Exclusive
mod Effect
pub mod Families
mod Held
pub mod Critical
pub mod Examples
use hpx_mp.Base.{ℕ, ◌+◌, ◌≡◌, Bool, true, false, Option, none, some, if◌then◌else◌, update}

-- `hpx::lcos::local::spinlock`. `lock` gives `none` while it spins.
pub record Spinlock : Type 1 where
  pub State : Type 0
  pub fresh : State
  pub lock : State → Option State
  pub try_lock : State → State × Bool
  pub unlock : State → State
  pub held : State → Bool
  pub fresh_free : held fresh ≡ false
  pub lock_free : (m : State) → held m ≡ false → (l : State) × (lock m ≡ some l) × (held l ≡ true)
  pub lock_held : (m : State) → held m ≡ true → lock m ≡ none
  pub try_lock_free :
      (m : State) → held m ≡ false → ((try_lock m).1 ≡ true) × (held (try_lock m).0 ≡ true)
  pub try_lock_held : (m : State) → held m ≡ true → try_lock m ≡ (m, false)
  pub unlock_frees : (m : State) → held (unlock m) ≡ false

module _ (spin : Spinlock) where
  -- The locks that `new` has made: no two have one address.
  pub record Locks : Type 0 where
    pub next : ℕ
    pub cell : ℕ → Option spin.State

  -- A call that waits is made again; a fault is the use of a lock that is not there.
  pub data Outcome : Type 0 where
    done : Locks → Outcome
    waits fault : Outcome

  -- `*lock = new omp_lock_t` and `delete *lock`
  unfoldable pub new_lock : Locks → Locks × ℕ
  new_lock s =
      (record s { next = s.next + 1; cell = update s.cell s.next (some spin.fresh) }, s.next)

  unfoldable pub delete_lock : ℕ → Locks → Locks
  delete_lock a s = record s { cell = update s.cell a none }

  abbrev locked : ℕ → Locks → Option spin.State → Outcome
  locked a s none = waits
  locked a s (some l) = done (record s { cell = update s.cell a (some l) })

  abbrev lock_at : ℕ → Locks → Option spin.State → Outcome
  lock_at a s none = fault
  lock_at a s (some m) = locked a s (spin.lock m)

  -- `(*lock)->lock()`
  unfoldable pub lock_call : ℕ → Locks → Outcome
  lock_call a s = lock_at a s (s.cell a)

  abbrev unlock_at : ℕ → Locks → Option spin.State → Outcome
  unlock_at a s none = fault
  unlock_at a s (some m) = done (record s { cell = update s.cell a (some (spin.unlock m)) })

  -- `(*lock)->unlock()`
  unfoldable pub unlock_call : ℕ → Locks → Outcome
  unlock_call a s = unlock_at a s (s.cell a)

  abbrev try_lock_at : ℕ → Locks → Option spin.State → Option (Locks × Bool)
  try_lock_at a s none = none
  try_lock_at a s (some m) =
      let (l, taken) = spin.try_lock m in some (record s { cell = update s.cell a (some l) }, taken)

  -- `(*lock)->try_lock()`
  unfoldable pub try_lock_call : ℕ → Locks → Option (Locks × Bool)
  try_lock_call a s = try_lock_at a s (s.cell a)

  -- The result of a test is 1 or 0.
  abbrev pub as_int : Option (Locks × Bool) → Option (Locks × ℕ)
  as_int none = none
  as_int (some (s, taken)) = some (s, if taken then 1 else 0)

  unfoldable pub kmpc_init_lock : Locks → Locks × ℕ
  unfolding new_lock
  kmpc_init_lock s = new_lock s

  unfoldable pub kmpc_destroy_lock : ℕ → Locks → Locks
  unfolding delete_lock
  kmpc_destroy_lock a s = delete_lock a s

  unfoldable pub kmpc_set_lock : ℕ → Locks → Outcome
  unfolding lock_call
  kmpc_set_lock a s = lock_call a s

  unfoldable pub kmpc_unset_lock : ℕ → Locks → Outcome
  unfolding unlock_call
  kmpc_unset_lock a s = unlock_call a s

  unfoldable pub kmpc_test_lock : ℕ → Locks → Option (Locks × ℕ)
  unfolding try_lock_call
  kmpc_test_lock a s = as_int (try_lock_call a s)

  unfoldable pub kmpc_init_nest_lock : Locks → Locks × ℕ
  unfolding kmpc_init_lock
  kmpc_init_nest_lock s = kmpc_init_lock s

  unfoldable pub kmpc_destroy_nest_lock : ℕ → Locks → Locks
  unfolding kmpc_destroy_lock
  kmpc_destroy_nest_lock a s = kmpc_destroy_lock a s

  unfoldable pub kmpc_set_nest_lock : ℕ → Locks → Outcome
  unfolding kmpc_set_lock
  kmpc_set_nest_lock a s = kmpc_set_lock a s

  unfoldable pub kmpc_unset_nest_lock : ℕ → Locks → Outcome
  unfolding kmpc_unset_lock
  kmpc_unset_nest_lock a s = kmpc_unset_lock a s

  unfoldable pub kmpc_test_nest_lock : ℕ → Locks → Option (Locks × ℕ)
  unfolding kmpc_test_lock
  kmpc_test_nest_lock a s = kmpc_test_lock a s

  unfoldable pub omp_init_lock : Locks → Locks × ℕ
  unfolding new_lock
  omp_init_lock s = new_lock s

  unfoldable pub omp_destroy_lock : ℕ → Locks → Locks
  unfolding delete_lock
  omp_destroy_lock a s = delete_lock a s

  unfoldable pub omp_set_lock : ℕ → Locks → Outcome
  unfolding lock_call
  omp_set_lock a s = lock_call a s

  unfoldable pub omp_unset_lock : ℕ → Locks → Outcome
  unfolding unlock_call
  omp_unset_lock a s = unlock_call a s

  unfoldable pub omp_test_lock : ℕ → Locks → Option (Locks × ℕ)
  unfolding try_lock_call
  omp_test_lock a s = as_int (try_lock_call a s)

  unfoldable pub omp_init_nest_lock : Locks → Locks × ℕ
  unfolding new_lock
  omp_init_nest_lock s = new_lock s

  unfoldable pub omp_destroy_nest_lock : ℕ → Locks → Locks
  unfolding delete_lock
  omp_destroy_nest_lock a s = delete_lock a s

  unfoldable pub omp_set_nest_lock : ℕ → Locks → Outcome
  unfolding lock_call
  omp_set_nest_lock a s = lock_call a s

  unfoldable pub omp_unset_nest_lock : ℕ → Locks → Outcome
  unfolding unlock_call
  omp_unset_nest_lock a s = unlock_call a s

  unfoldable pub omp_test_nest_lock : ℕ → Locks → Option (Locks × ℕ)
  unfolding try_lock_call
  omp_test_nest_lock a s = as_int (try_lock_call a s)
