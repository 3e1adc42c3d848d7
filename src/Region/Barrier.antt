-- ===== src/Region/Barrier.antt =====
-- `barrier_wait` of src/hpx_runtime.cpp by the threads of a team, in the build without OMP_COMPLIANT:
-- the loop of `task_wait`, the loop on the tasks of the team and the team's `globalBarrier`, while
-- tasks are created and end. The barrier is HPX's: a parameter.
pub mod Passed
pub mod Backoff
pub mod Examples
use hpx_mp.Base.{
  ℕ, ◌+◌, ◌≤◌, ◌<◌, ◌≡◌, Bool, true, false, List, [], ◌∷◌, some, ltb, if◌then◌else◌, update,
  get_elem?, not,
}
use hpx_mp.Base.Int.{pos, ltb_ℤ}
use hpx_mp.Task.Counters.{
  TaskState, no_tasks, TaskEvent, created, created_df, ended, create_task, create_df_task, remove,
  happen, task_wait_over,
}

-- `hpx::lcos::local::barrier` for `n` threads: how often each has called `wait`, and whether the
-- latest call of a thread returns. It returns exactly when every thread has called as often.
pub record Barrier (n : ℕ) : Type 0 where
  pub opens : (ℕ → ℕ) → ℕ → Bool
  pub together :
      (calls : ℕ → ℕ) (i : ℕ) → opens calls i ≡ true → (j : ℕ) → j < n → calls i ≤ calls j
  pub all_here :
      (calls : ℕ → ℕ) (i : ℕ) → ((j : ℕ) → j < n → calls i ≤ calls j) → opens calls i ≡ true

-- Where a thread of the team is: in its own code, at the loop of `task_wait`, at the loop on
-- `num_tasks`, before `globalBarrier.wait()`, or in it.
pub data BarrierPc : Type 0 where
  running waiting_children waiting_tasks arriving waiting : BarrierPc

-- The tasks that have not ended stand in `tasks.unfinished`; `born` has for each of them how many
-- barriers the thread had come to, in whose code it was created or the first of its ancestors.
pub record Barriers : Type 0 where
  pub pc : ℕ → BarrierPc
  pub tasks : TaskState
  pub born : List ℕ
  pub come : ℕ → ℕ
  pub calls : ℕ → ℕ

unfoldable pub team_start : Barriers
unfolding no_tasks
team_start = record {
  pc = λ i. running;
  tasks = no_tasks;
  born = [];
  come = λ i. 0;
  calls = λ i. 0;
}

-- `while(team->num_tasks > 0)` ends.
unfoldable pub tasks_over : TaskState → Bool
tasks_over s = not (ltb_ℤ (pos 0) s.num_tasks)

-- What creates a task in a team of `n` threads.
pub data Creates (n p : ℕ) : TaskEvent → Type 0 where
  plain : (in_taskgroup : Bool) → Creates n p (created n in_taskgroup p)
  with_deps : (in_taskgroup : Bool) → Creates n p (created_df in_taskgroup p)

unfoldable pub enter_barrier : ℕ → Barriers → Barriers
enter_barrier i s = record s { pc = update s.pc i waiting_children }

unfoldable pub children_done : ℕ → Barriers → Barriers
children_done i s = record s { pc = update s.pc i waiting_tasks }

-- Past the loop on `num_tasks`: `if(team->num_threads > 1)`.
unfoldable pub tasks_done : ℕ → ℕ → Barriers → Barriers
tasks_done n i s = record s {
  pc = update s.pc i (if ltb 1 n then arriving else running);
  come = update s.come i (s.come i + 1);
}

unfoldable pub call_wait : ℕ → Barriers → Barriers
call_wait i s = record s { pc = update s.pc i waiting; calls = update s.calls i (s.calls i + 1) }

unfoldable pub leave_wait : ℕ → Barriers → Barriers
leave_wait i s = record s { pc = update s.pc i running }

module _ {n : ℕ} (barrier : Barrier n) where
  -- A step of a thread of the team or of a task.
  pub data Step (s : Barriers) : Barriers → Type 0 where
    thread_creates :
        (i : ℕ) (e : TaskEvent) (t : TaskState)
        → i < n
        → s.pc i ≡ running
        → Creates n i e
        → happen false e s.tasks ≡ some t
        → Step s (record s { tasks = t; born = s.come i ∷ s.born })
    task_creates :
        (k p b : ℕ) (e : TaskEvent) (t : TaskState)
        → get_elem? s.born k ≡ some b
        → Creates n p e
        → happen false e s.tasks ≡ some t
        → Step s (record s { tasks = t; born = b ∷ s.born })
    task_ends :
        (k : ℕ) (t : TaskState)
        → happen false (ended k) s.tasks ≡ some t
        → Step s (record s { tasks = t; born = remove s.born k })
    enters : (i : ℕ) → i < n → s.pc i ≡ running → Step s (enter_barrier i s)
    childless :
        (i : ℕ)
        → i < n
        → s.pc i ≡ waiting_children
        → task_wait_over s.tasks i ≡ true
        → Step s (children_done i s)
    taskless :
        (i : ℕ)
        → i < n
        → s.pc i ≡ waiting_tasks
        → tasks_over s.tasks ≡ true
        → Step s (tasks_done n i s)
    arrives : (i : ℕ) → i < n → s.pc i ≡ arriving → Step s (call_wait i s)
    returns :
        (i : ℕ)
        → i < n
        → s.pc i ≡ waiting
        → barrier.opens s.calls i ≡ true
        → Step s (leave_wait i s)

  pub data Reach : Barriers → Type 0 where
    start : Reach team_start
    later : {s t : Barriers} → Reach s → Step s t → Reach t
