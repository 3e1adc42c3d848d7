-- ===== src/Team.antt =====
-- The state of a team and of a task: `parallel_region` and `omp_task_data` of src/hpx_runtime.h, and
-- the control variables of src/icv-vars.h.
pub mod Threads
pub mod Number
pub mod Dynamic
pub mod ForkCall
pub mod Single
pub mod Reduce
pub mod Examples
use hpx_mp.Base.{ℕ, ◌+◌, Bool, List, [], Option, none, replicate}
use hpx_mp.Loop.Data.{LoopList}

-- `struct omp_device_icv`
pub record DeviceIcv : Type 0 where
  pub def_sched : ℕ
  pub max_active_levels : ℕ
  pub cancel : Bool

-- `struct omp_icv`, without the pointer to the device's.
pub record Icv : Type 0 where
  pub dyn : Bool
  pub nest : Bool
  pub nthreads : ℕ
  pub active_levels : ℕ
  pub levels : ℕ

-- `struct parallel_region`. An address is a number; the null pointer is `none`.
pub record ParallelRegion : Type 0 where
  pub num_threads : ℕ
  pub depth : ℕ
  pub single_counter : ℕ
  pub copyprivate_data : Option ℕ
  pub reduce_data : List (Option ℕ)
  pub loop_list : LoopList

-- `class omp_task_data`, as far as it belongs to the task alone.
pub record OmpTaskData : Type 0 where
  pub local_thread_num : ℕ
  pub threads_requested : ℕ
  pub single_counter : ℕ
  pub loop_num : ℕ
  pub in_taskgroup : Bool
  pub icv : Icv

-- `parallel_region(int N)`
unfoldable pub parallel_region : ℕ → ParallelRegion
parallel_region n = record {
  num_threads = n;
  depth = 0;
  single_counter = 0;
  copyprivate_data = none;
  reduce_data = replicate n none;
  loop_list = record { items = []; capacity = 0 };
}

-- `parallel_region(parallel_region *parent, int threads_requested)`
unfoldable pub nested_region : ParallelRegion → ℕ → ParallelRegion
unfolding parallel_region
nested_region parent threads_requested = record (parallel_region threads_requested) {
  depth = parent.depth + 1;
}
