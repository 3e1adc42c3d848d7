-- ===== src/Task/Examples.antt =====
-- Concrete tasks.
use hpx_mp.Base.{none}
use hpx_mp.Task.Group.{GroupEvent, starts, ends, creates}
use hpx_mp.Task.Current.{ThreadData, nothing, get_task_data, create_and_run, create_and_run-current}
use hpx_mp.Base.{◌+◌, ◌≤◌, ◌<◌, ◌≡◌, ◌↔◌, refl, true, false, update, some, List, [], ◌∷◌, arith}
use hpx_mp.Base.Int.{pos, arithmetic}
use hpx_mp.Base.{ℕ, ◌≢◌, false, ◌⊎◌}
use hpx_mp.Task.Depends.{
  KmpDependInfo, DfTask, Among, Names, dep_futures, df_map_after, last_writer,
  dep_futures-last_writer,
}
use hpx_mp.Task.Counters.{
  Unfinished, TaskState, no_tasks, TaskEvent, happens, happen, create_task, create_df_task,
  end_task, task_wait_over,
}
use hpx_mp.Task.Counters.Accounting.{children, in_executors, uncounted, task_wait_over-children}
use hpx_mp.Task.Thunk.{omp_task_with_deps, omp_task_if0, task_life}
use hpx_mp.Task.Thunk.Ends.{ran_once, task_life-ends}

-- With `OMP_COMPLIANT`, task 7 creates a task, and another one inside a task group; the first one
-- ends.
abbrev events : List TaskEvent
events = TaskEvent.created 4 false 7 ∷ TaskEvent.created 4 true 7 ∷ TaskEvent.ended 1 ∷ []

abbrev after_events : TaskState
after_events = record {
  num_child_tasks = update (update (λ p. pos 0) 7 (pos 1)) 7 (pos 0);
  num_tasks = pos 0;
  unfinished = Unfinished.in_executor 7 ∷ [];
}

-- One task has not ended, and `taskwait` goes on.
task_wait_over-children_example : (task_wait_over after_events 7 ≡ true) ↔ (
    children 7 after_events.unfinished
    ≤ in_executors 7 after_events.unfinished + uncounted true events 7)
unfolding happens happen create_task create_df_task end_task no_tasks arithmetic
task_wait_over-children_example = task_wait_over-children true events after_events 7 refl

abbrev writes_64 : KmpDependInfo
writes_64 = record { base_addr = 64; len = 8; inp = false; out = true }

abbrev reads_64 : KmpDependInfo
reads_64 = record { base_addr = 64; len = 8; inp = true; out = false }

-- Task 0 writes what task 1 reads; task 2 writes it again.
abbrev earlier : List DfTask
earlier =
    record { new_task = 1; dep_list = reads_64 ∷ []; noalias_dep_list = [] }
    ∷ record { new_task = 0; dep_list = writes_64 ∷ []; noalias_dep_list = [] }
    ∷ []

abbrev third : DfTask
third = record { new_task = 2; dep_list = writes_64 ∷ []; noalias_dep_list = [] }

dep_futures-last_writer_example : Among 1 (dep_futures (df_map_after earlier) third) ↔ (
    Names (last_writer earlier) third.dep_list 1
    ⊎ Names (last_writer earlier) third.noalias_dep_list 1)
dep_futures-last_writer_example = dep_futures-last_writer earlier third 1

-- A group that is ended while its task is unfinished, and a group within a group.
abbrev nested_groups : List GroupEvent
nested_groups = starts ∷ creates 2 ∷ ends ∷ starts ∷ starts ∷ ends ∷ ends ∷ []

abbrev no_data : ThreadData
no_data = record { thread_data = λ t. none; live = λ d. false }

create_and_run-current_example :
    ((1 < 1)
      × (get_task_data (some 3) 0 (create_and_run 1 3 4 7 nothing no_data)
          ≡ get_task_data (some 3) 0 no_data))
    ⊎ ((1 ≤ 1)
        × ((create_and_run 1 3 4 7 nothing no_data).live
              (get_task_data (some 3) 0 (create_and_run 1 3 4 7 nothing no_data))
            ≡ false))
create_and_run-current_example =
    create_and_run-current 1 3 4 7 0 nothing no_data (λ e. omega (arith, e))

-- A task with one dependence in a team of one thread.
task_life-ends_example :
    ((omp_task_with_deps 1 0 ≡ omp_task_if0)
      × (task_life (omp_task_with_deps 1 0) 1 ≡ some (ran_once false)))
    ⊎ ((true ≡ true) × (◌≡◌ {A = ℕ} 1 1) × (task_life (omp_task_with_deps 1 0) 1 ≡ none))
    ⊎ ((omp_task_with_deps 1 0 ≢ omp_task_if0)
        × ((true ≡ false) ⊎ (◌≢◌ {A = ℕ} 1 1))
        × (task_life (omp_task_with_deps 1 0) 1 ≡ some (ran_once true)))
task_life-ends_example = task_life-ends (omp_task_with_deps 1 0) 1 (omega arith)
