-- ===== src/Region/Barrier/Examples.antt =====
-- A team of two threads at its barrier.
use hpx_mp.Base.{
  ℕ, zero, suc, ◌≤◌, ◌<◌, ◌≡◌, refl, Bool, true, false, ◌&&◌, leb, [], arith, All, length,
}
use hpx_mp.Base.Int.{◌+ℤ◌, ◌-ℤ◌}
use hpx_mp.Task.Counters.{
  Unfinished, TaskState, create_task, end_task, happen, task_wait_over, no_tasks,
}
use hpx_mp.Region.Barrier.{
  Barrier, running, Barriers, team_start, tasks_over, plain, enter_barrier, children_done,
  tasks_done, call_wait, leave_wait, thread_creates, task_ends, enters, childless, taskless,
  arrives, returns, Reach, start, later,
}
use hpx_mp.Region.Barrier.Passed.{barrier-passed}
use hpx_mp.Region.Barrier.Backoff.{}

abbrev opens : (ℕ → ℕ) → ℕ → Bool
opens calls i = leb (calls i) (calls 0) && leb (calls i) (calls 1)

opens-together :
    (calls : ℕ → ℕ) (i : ℕ) → opens calls i ≡ true → (j : ℕ) → j < 2 → calls i ≤ calls j
opens-together calls i h zero lt = ground (arith, h)
opens-together calls i h (suc zero) lt = ground (arith, h)
opens-together calls i h (suc (suc j)) lt = absurd (omega arith)

opens-all_here :
    (calls : ℕ → ℕ) (i : ℕ) → ((j : ℕ) → j < 2 → calls i ≤ calls j) → opens calls i ≡ true
opens-all_here calls i h =
    let first = h 0 (omega arith) in let second = h 1 (omega arith) in ground (arith, first, second)

abbrev two : Barrier 2
two = record { opens = opens; together = opens-together; all_here = opens-all_here }

-- Thread 0 creates a task, which ends; both threads come to the barrier, and thread 0 leaves it.
abbrev one_task : TaskState
one_task = create_task false 2 false 0 no_tasks

abbrev task_over : TaskState
task_over = end_task false (Unfinished.child 0) (record one_task { unfinished = [] })

abbrev worked : Barriers
worked = record team_start { tasks = task_over; born = [] }

abbrev come_to : ℕ → Barriers → Barriers
come_to i s = call_wait i (tasks_done 2 i (children_done i (enter_barrier i s)))

abbrev first_past : Barriers
first_past = leave_wait 0 (come_to 1 (come_to 0 worked))

worked-Reach : Reach two worked
unfolding team_start no_tasks happen create_task end_task
worked-Reach =
    later (later start (thread_creates 0 _ one_task (omega arith) refl (plain false) refl))
      (task_ends 0 task_over refl)

first_past-Reach : Reach two first_past
unfolding team_start no_tasks happen create_task end_task enter_barrier children_done tasks_done
    call_wait leave_wait task_wait_over tasks_over ◌+ℤ◌ ◌-ℤ◌
first_past-Reach =
    let zero_enters = later worked-Reach (enters 0 (omega arith) refl) in
    let zero_waits =
      later
        (later (later zero_enters (childless 0 (omega arith) refl refl))
          (taskless 0 (omega arith) refl refl))
        (arrives 0 (omega arith) refl) in
    let one_enters = later zero_waits (enters 1 (omega arith) refl) in
    let one_waits =
      later
        (later (later one_enters (childless 1 (omega arith) refl refl))
          (taskless 1 (omega arith) refl refl))
        (arrives 1 (omega arith) refl) in
    later one_waits (returns 0 (omega arith) refl refl)

first_past-running : first_past.pc 0 ≡ running
unfolding leave_wait
first_past-running = refl

barrier-passed_example :
    ((j : ℕ) → j < 2 → first_past.come 0 ≤ first_past.come j)
    × (length first_past.born ≡ length first_past.tasks.unfinished)
    × All (λ b. first_past.come 0 ≤ b) first_past.born
barrier-passed_example =
    barrier-passed two (omega arith) first_past 0 first_past-Reach (omega arith) first_past-running
