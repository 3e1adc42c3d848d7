-- ===== src/Task/Counters.antt =====
-- `create_task`, `create_df_task`, `task_setup` and `task_wait` of src/hpx_runtime.cpp: the counter
-- of a task's children and that of the team's tasks, while tasks are created and end in any order.
pub mod Accounting
use hpx_mp.Base.{
  ℕ, zero, suc, ◌+◌, ◌≡◌, Bool, true, false, Option, none, some, List, [], ◌∷◌, ◌==◌, ltb, ◌&&◌,
  if◌then◌else◌, update, get_elem?, not, ◌>>=◌,
}
use hpx_mp.Base.Int.{ℤ, pos, ◌+ℤ◌, ◌-ℤ◌, ltb_ℤ}

-- A task that has not ended, with the task that has created it: its end changes the counter of that
-- task, or it is in an executor of a task group and changes none.
pub data Unfinished : Type 0 where
  child in_executor : ℕ → Unfinished

-- The counters by the task whose children they count, and the tasks that have not ended.
pub record TaskState : Type 0 where
  pub num_child_tasks : ℕ → ℤ
  pub num_tasks : ℤ
  pub unfinished : List Unfinished

unfoldable pub no_tasks : TaskState
no_tasks = record { num_child_tasks = λ p. pos 0; num_tasks = pos 0; unfinished = [] }

-- What happens: a task of a team of so many threads, in a task group or not, creates one; it creates
-- one with dependences; the unfinished task at an index ends.
pub data TaskEvent : Type 0 where
  created : ℕ → Bool → ℕ → TaskEvent
  created_df : Bool → ℕ → TaskEvent
  ended : ℕ → TaskEvent

abbrev pub more : (ℕ → ℤ) → ℕ → ℕ → ℤ
more counters p = update counters p (counters p +ℤ pos 1)

abbrev pub fewer : (ℕ → ℤ) → ℕ → ℕ → ℤ
fewer counters p = update counters p (counters p -ℤ pos 1)

-- With `OMP_COMPLIANT` a task in a task group goes to the group's executor. In a team of one thread
-- the task runs at once, and nobody counts it for the team.
unfoldable pub create_task : Bool → ℕ → Bool → ℕ → TaskState → TaskState
create_task compliant num_threads in_taskgroup p s =
    if ltb 1 num_threads
    then if compliant
      then if in_taskgroup
        then record s { unfinished = in_executor p ∷ s.unfinished }
        else record s {
          num_child_tasks = more s.num_child_tasks p;
          unfinished = child p ∷ s.unfinished;
        }
      else record s {
        num_child_tasks = more s.num_child_tasks p;
        num_tasks = s.num_tasks +ℤ pos 1;
        unfinished = child p ∷ s.unfinished;
      }
    else record s {
      num_child_tasks = more s.num_child_tasks p;
      unfinished = child p ∷ s.unfinished;
    }

-- The counting of `create_df_task` in a team of several threads.
unfoldable pub create_df_task : Bool → Bool → ℕ → TaskState → TaskState
create_df_task compliant in_taskgroup p s = record {
  num_child_tasks = if in_taskgroup then s.num_child_tasks else more s.num_child_tasks p;
  num_tasks = if compliant then s.num_tasks else s.num_tasks +ℤ pos 1;
  unfinished = (if compliant && in_taskgroup then in_executor p else child p) ∷ s.unfinished;
}

abbrev pub remove {ℓ} : {A : Type ℓ} → List A → ℕ → List A
remove [] i = []
remove (x ∷ xs) zero = xs
remove (x ∷ xs) (suc i) = x ∷ remove xs i

-- The end of `task_setup`, and of `tg_task_setup`.
unfoldable pub end_task : Bool → Unfinished → TaskState → TaskState
end_task compliant (in_executor p) s = s
end_task compliant (child p) s = record s {
  num_child_tasks = fewer s.num_child_tasks p;
  num_tasks = if compliant then s.num_tasks else s.num_tasks -ℤ pos 1;
}

unfoldable pub happen : Bool → TaskEvent → TaskState → Option TaskState
happen compliant (created n in_taskgroup p) s = some (create_task compliant n in_taskgroup p s)
happen compliant (created_df in_taskgroup p) s = some (create_df_task compliant in_taskgroup p s)
happen compliant (ended i) s = do
  task ← get_elem? s.unfinished i
  some (end_task compliant task (record s { unfinished = remove s.unfinished i }))

unfoldable pub happens : Bool → List TaskEvent → TaskState → Option TaskState
happens compliant [] s = some s
happens compliant (e ∷ es) s = do s' ← happen compliant e s; happens compliant es s'

-- `task_wait` goes on when the loop on the counter ends.
unfoldable pub task_wait_over : TaskState → ℕ → Bool
task_wait_over s p = not (ltb_ℤ (pos 0) (s.num_child_tasks p))
