-- ===== src/Team/Dynamic.antt =====
-- The functions of src/intel_hpxMP.cpp on the dynamic adjustment of teams and on the number of
-- threads of the current team, where the runtime has started.
use hpx_mp.Base.{ℕ, zero, suc, ◌≡◌, refl, Bool, true, false, if◌then◌else◌}
use hpx_mp.Base.Int.{ℤ, pos, negsuc}
use hpx_mp.Team.{DeviceIcv, ParallelRegion, OmpTaskData, nested_region, parallel_region}
use hpx_mp.Team.Threads.{fork, set_threads_requested, implicit_task, explicit_task}

-- `dynamic_threads != 0`
abbrev is_set : ℤ → Bool
is_set (pos zero) = false
is_set (pos (suc n)) = true
is_set (negsuc n) = true

unfoldable pub omp_set_dynamic : ℤ → OmpTaskData → OmpTaskData
omp_set_dynamic dynamic_threads task = record task {
  icv = record task.icv { dyn = is_set dynamic_threads };
}

unfoldable pub omp_get_dynamic : OmpTaskData → ℕ
omp_get_dynamic task = if task.icv.dyn then 1 else 0

-- `hpx_runtime::get_num_threads`
unfoldable pub get_num_threads : ParallelRegion → ℕ
get_num_threads team = team.num_threads

unfoldable pub omp_get_num_threads : ParallelRegion → ℕ
unfolding get_num_threads
omp_get_num_threads team = get_num_threads team

-- `omp_set_dynamic` leaves the number of threads of the next region as it is; each of them finds
-- what it has set, and nothing else of its task differs.
fork-omp_set_dynamic :
    (device : DeviceIcv) (team : ParallelRegion) (task : OmpTaskData) (d : ℤ) (i : ℕ)
    → (omp_get_num_threads (fork device team (omp_set_dynamic d task)).team
        ≡ task.threads_requested)
      × ((fork device team (omp_set_dynamic d task)).thread i
          ≡ omp_set_dynamic d ((fork device team task).thread i))
unfolding omp_get_num_threads get_num_threads omp_set_dynamic fork nested_region parallel_region
    implicit_task explicit_task set_threads_requested
fork-omp_set_dynamic device team task d i = (refl, refl)
