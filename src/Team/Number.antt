-- ===== src/Team/Number.antt =====
-- Which thread a caller is: `hpx_runtime::get_thread_num` (src/hpx_runtime.cpp), and behind it
-- `__kmpc_global_thread_num`, `omp_get_thread_num` and `__kmpc_master` (src/intel_hpxMP.cpp), where
-- the runtime has started. Which of HPX's workers runs a thread of a team is a parameter.
use hpx_mp.Base.{ℕ, ◌==◌, if◌then◌else◌}

module _ (get_worker_thread_num : ℕ → ℕ) where
  unfoldable pub get_thread_num : ℕ → ℕ
  get_thread_num i = get_worker_thread_num i

  -- Where the compiler has no number of the thread, as in a function that a region calls.
  unfoldable pub global_thread_num : ℕ → ℕ
  unfolding get_thread_num
  global_thread_num i = get_thread_num i

  unfoldable pub omp_get_thread_num : ℕ → ℕ
  unfolding get_thread_num
  omp_get_thread_num i = get_thread_num i

  unfoldable pub kmpc_master : ℕ → ℕ
  unfolding get_thread_num
  kmpc_master i = if get_thread_num i == 0 then 1 else 0
