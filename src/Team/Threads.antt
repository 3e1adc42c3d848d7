-- ===== src/Team/Threads.antt =====
-- How many threads a parallel region gets: the constructors and `set_threads_requested` of
-- `omp_task_data` (src/hpx_runtime.h), `fork` (src/hpx_runtime.cpp) and the functions of
-- src/intel_hpxMP.cpp on the control variables.
use hpx_mp.Base.{
  ℕ, suc, ◌+◌, ◌<◌, ◌≡◌, refl, List, [], ◌∷◌, length, Bool, true, false, ltb, ◌==◌, ◌&&◌,
  if◌then◌else◌, arith, subst, lt→ltb,
}
use hpx_mp.Base.Int.{ℤ, pos, pos_part, ltb_ℤ}
use hpx_mp.Team.{DeviceIcv, Icv, ParallelRegion, OmpTaskData, nested_region, parallel_region}

-- `omp_task_data(int tid, parallel_region *T, omp_icv icv_vars)`
unfoldable pub explicit_task : ℕ → Icv → OmpTaskData
explicit_task tid icv = record {
  local_thread_num = tid;
  threads_requested = icv.nthreads;
  single_counter = 0;
  loop_num = 0;
  in_taskgroup = false;
  icv = icv;
}

-- `omp_task_data(int tid, parallel_region *T, omp_task_data *P)`
unfoldable pub implicit_task : ℕ → ParallelRegion → OmpTaskData → OmpTaskData
unfolding explicit_task
implicit_task tid team parent =
    let icv = parent.icv in
    record (explicit_task tid icv) {
      icv = record icv {
        levels = icv.levels + 1;
        active_levels = if ltb 1 team.num_threads then icv.active_levels + 1 else icv.active_levels;
      };
    }

-- `omp_task_data(parallel_region *T, omp_device_icv *global, int init_num_threads)`
unfoldable pub initial_task : ℕ → OmpTaskData
unfolding explicit_task
initial_task init_num_threads = explicit_task 0 (record {
  dyn = false;
  nest = false;
  nthreads = init_num_threads;
  active_levels = 0;
  levels = 0;
})

unfoldable pub set_threads_requested : DeviceIcv → ℤ → OmpTaskData → OmpTaskData
set_threads_requested device nthreads task =
    let asked = if ltb_ℤ (pos 0) nthreads then pos_part nthreads else task.threads_requested in
    let nested = if task.icv.nest && ltb 1 task.icv.active_levels then 1 else asked in
    record task {
      threads_requested = if task.icv.active_levels == device.max_active_levels then 1 else nested;
    }

-- `hpx_runtime::set_num_threads`, behind the second `omp_get_num_threads`.
unfoldable pub set_num_threads : ℤ → OmpTaskData → OmpTaskData
set_num_threads nthreads task =
    if ltb_ℤ (pos 0) nthreads
    then record task {
      icv = record task.icv { nthreads = pos_part nthreads };
      threads_requested = pos_part nthreads;
    }
    else task

unfoldable pub push_num_threads : DeviceIcv → ℤ → OmpTaskData → OmpTaskData
unfolding set_threads_requested
push_num_threads device n task = set_threads_requested device n task

unfoldable pub omp_set_num_threads : DeviceIcv → ℤ → OmpTaskData → OmpTaskData
unfolding set_threads_requested
omp_set_num_threads device n task = set_threads_requested device n task

unfoldable pub omp_get_max_threads : OmpTaskData → ℕ
omp_get_max_threads task = task.icv.nthreads

unfoldable pub omp_in_parallel : OmpTaskData → Bool
omp_in_parallel task = ltb 0 task.icv.active_levels

-- `fork` and `fork_worker`: the new team, its threads' tasks, and the caller's afterwards.
pub record Forked : Type 0 where
  pub team : ParallelRegion
  pub thread : ℕ → OmpTaskData
  pub caller : OmpTaskData

unfoldable pub fork : DeviceIcv → ParallelRegion → OmpTaskData → Forked
unfolding set_threads_requested implicit_task nested_region
fork device team task =
    let new_team = nested_region team task.threads_requested in
    record {
      team = new_team;
      thread = λ i. implicit_task i new_team task;
      caller = set_threads_requested device (pos task.icv.nthreads) task;
    }

-- A task whose next region is not limited.
pub record IsFree (device : DeviceIcv) (task : OmpTaskData) : Type 0 where
  pub unnested : task.icv.nest ≡ false
  pub below : task.icv.active_levels < device.max_active_levels
  pub some_threads : 1 < task.icv.nthreads

request-IsFree :
    (device : DeviceIcv) (task : OmpTaskData) (n : ℕ)
    → IsFree device task
    → 0 < n
    → (set_threads_requested device (pos n) task).threads_requested ≡ n
unfolding set_threads_requested
request-IsFree device task n f p = rw f.unnested (ground (arith, f.below))

-- For a task outside the limits on regions in regions (`IsFree`) and a positive number,
-- `omp_set_num_threads` gives the next region its number of threads, and the region after that one
-- the number from before; `omp_get_max_threads` does not tell of it.
omp_set_num_threads-forks :
    (device : DeviceIcv) (team : ParallelRegion) (task : OmpTaskData) (n : ℕ)
    → IsFree device task
    → 0 < n
    → ((fork device team (omp_set_num_threads device (pos n) task)).team.num_threads ≡ n)
      × ((fork device team
            (fork device team (omp_set_num_threads device (pos n) task)).caller).team.num_threads
          ≡ task.icv.nthreads)
      × (omp_get_max_threads (omp_set_num_threads device (pos n) task) ≡ task.icv.nthreads)
unfolding fork omp_set_num_threads omp_get_max_threads nested_region parallel_region
omp_set_num_threads-forks device team task n f p = (
  request-IsFree device task n f p,
  rw f.unnested (ground (arith, f.below, f.some_threads)),
  refl,
)

-- A region in a region: the threads of a list fork one each, the one furthest in first in the list.
unfoldable pub descend :
    DeviceIcv → List ℕ → ParallelRegion → OmpTaskData → ParallelRegion × OmpTaskData
descend device [] team task = (team, task)
descend device (i ∷ path) team task =
    let (inner, thread) = descend device path team task in
    let f = fork device inner thread in (f.team, f.thread i)

-- `k` regions further in, with `n` threads each.
record IsInside (n k : ℕ) (team : ParallelRegion) (task : OmpTaskData) (inner : ParallelRegion)
    (thread : OmpTaskData) : Type 0 where
  deep : inner.depth ≡ team.depth + k
  levels : thread.icv.levels ≡ task.icv.levels + k
  active : thread.icv.active_levels ≡ task.icv.active_levels + k
  kept : thread.icv.nthreads ≡ n
  asks : thread.threads_requested ≡ n
  same_nest : thread.icv.nest ≡ task.icv.nest

fork-IsInside :
    (device : DeviceIcv) (n k i : ℕ) (team inner : ParallelRegion) (task thread : OmpTaskData)
    → 1 < n
    → IsInside n k team task inner thread
    → IsInside n
        (k + 1)
        team
        task
        (fork device inner thread).team
        ((fork device inner thread).thread i)
unfolding fork implicit_task explicit_task nested_region parallel_region
fork-IsInside device n k i team inner task thread p w = record {
  deep = omega (arith, w.deep);
  levels = omega (arith, w.levels);
  active = ground (arith, w.active, w.asks);
  kept = w.kept;
  asks = w.kept;
  same_nest = w.same_nest;
}

descend-IsInside :
    (device : DeviceIcv) (n : ℕ) (path : List ℕ) (team : ParallelRegion) (task : OmpTaskData)
    → 1 < n
    → task.icv.nthreads ≡ n
    → task.threads_requested ≡ n
    → IsInside n
        (length path)
        team
        task
        (descend device path team task).0
        (descend device path team task).1
unfolding descend
descend-IsInside device n [] team task p kept asks = record {
  deep = omega arith;
  levels = omega arith;
  active = omega arith;
  kept = kept;
  asks = asks;
  same_nest = refl;
}
descend-IsInside device n (i ∷ path) team task p kept asks =
    subst
      (λ j.
        IsInside n j team task (descend device (i ∷ path) team task).0
          (descend device (i ∷ path) team task).1)
      (omega arith)
      (fork-IsInside device n (length path) i team _ task _ p
        (descend-IsInside device n path team task p kept asks))

-- From a task that asks for its default number of threads, two or more, regions in regions all have
-- that number, at any depth and whichever thread forks each, also where nesting is disabled and
-- beyond the limit on active levels; each counts as one level and as one active level.
pub fork-nested :
    (device : DeviceIcv) (n i : ℕ) (path : List ℕ) (team : ParallelRegion) (task : OmpTaskData)
    → 1 < n
    → task.icv.nthreads ≡ n
    → task.threads_requested ≡ n
    → let (inner, thread) = descend device (i ∷ path) team task in
      (inner.num_threads ≡ n)
      × (inner.depth ≡ team.depth + suc (length path))
      × (thread.icv.levels ≡ task.icv.levels + suc (length path))
      × (thread.icv.active_levels ≡ task.icv.active_levels + suc (length path))
      × (omp_in_parallel thread ≡ true)
unfolding omp_in_parallel descend fork nested_region parallel_region
fork-nested device n i path team task p kept asks =
    let w = descend-IsInside device n (i ∷ path) team task p kept asks in
    let outer = descend-IsInside device n path team task p kept asks in
    (outer.asks, w.deep, w.levels, w.active, lt→ltb _ _ (omega (arith, w.active)))
