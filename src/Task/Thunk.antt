-- ===== src/Task/Thunk.antt =====
-- The memory of a task (`kmp_task_t`) from the calls of src/intel_hpxMP.cpp that start it to its end
-- in `task_setup` of src/hpx_runtime.cpp, in the build without FUTURIZE_TASKS. HPX runs what it is
-- given to run once.
pub mod Ends
use hpx_mp.Base.{
  ℕ, zero, suc, ◌+◌, Bool, true, false, Option, none, some, ◌==◌, ◌&&◌, ltb, if◌then◌else◌, ◌>>=◌,
}

-- Whether the memory is freed, how often the routine has been called, and how many calls of
-- `task_setup` HPX has been given and not made.
pub record Thunk : Type 0 where
  pub freed : Bool
  pub runs : ℕ
  pub pending : ℕ

unfoldable pub allocated : Thunk
allocated = record { freed = false; runs = 0; pending = 0 }

-- `task->routine`: reading it after it is freed is undefined.
abbrev pub routine : Thunk → Option Thunk
routine t = if t.freed then none else some t

unfoldable pub task_setup : Thunk → Option Thunk
task_setup t = do t' ← routine t; some (record t' { runs = suc t'.runs; freed = true })

-- What `hpx::apply`, `hpx::async` and `dataflow` are given, in a task group or not.
abbrev pub spawn : Thunk → Thunk
spawn t = record t { pending = suc t.pending }

-- In a team of several threads HPX runs the task, and in a team of one the caller.
unfoldable pub create_task : ℕ → Thunk → Option Thunk
unfolding task_setup
create_task num_threads t = if ltb 1 num_threads then some (spawn t) else task_setup t

unfoldable pub create_df_task : ℕ → Thunk → Option Thunk
unfolding create_task
create_df_task num_threads t = do
  t' ← if num_threads == 1 then routine t >>= create_task num_threads else some t
  some (spawn t')

-- `__kmpc_omp_task`, `__kmpc_omp_task_parts`, `__kmpc_omp_task_with_deps` with the lengths of its two
-- lists, and `__kmpc_omp_task_begin_if0` with `__kmpc_omp_task_complete_if0`.
pub data TaskCall : Type 0 where
  omp_task : TaskCall
  omp_task_parts : TaskCall
  omp_task_with_deps : ℕ → ℕ → TaskCall
  omp_task_if0 : TaskCall

unfoldable pub omp_task_begin_if0 : Thunk → Option Thunk
omp_task_begin_if0 t = do t' ← routine t; some (record t' { runs = suc t'.runs })

unfoldable pub task_call : TaskCall → ℕ → Thunk → Option Thunk
unfolding create_task create_df_task omp_task_begin_if0
task_call omp_task num_threads t = routine t >>= create_task num_threads
task_call omp_task_parts num_threads t = routine t >>= create_task num_threads
task_call (omp_task_with_deps ndeps ndeps_noalias) num_threads t =
    if (ndeps == 0) && (ndeps_noalias == 0)
    then routine t >>= create_task num_threads
    else create_df_task num_threads t
task_call omp_task_if0 num_threads t = omp_task_begin_if0 t

-- HPX makes the calls that it has been given.
unfoldable pub settle : ℕ → Thunk → Option Thunk
unfolding task_setup
settle zero t = some t
settle (suc n) t = do t' ← task_setup (record t { pending = n }); settle n t'

unfoldable pub task_life : TaskCall → ℕ → Option Thunk
unfolding task_call settle allocated
task_life c num_threads = do t ← task_call c num_threads allocated; settle t.pending t
