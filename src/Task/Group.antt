-- ===== src/Task/Group.antt =====
-- `start_taskgroup` and `end_taskgroup` of src/hpx_runtime.cpp, behind `__kmpc_taskgroup` and
-- `__kmpc_end_taskgroup`, in the build without OMP_COMPLIANT, for one task among the others of its
-- team.
use hpx_mp.Base.{
  ℕ, ◌≡◌, ◌⊎◌, Bool, true, false, Option, none, some, List, [], ◌∷◌, ◌&&◌, if◌then◌else◌,
}
use hpx_mp.Base.Int.{ℤ, pos, ltb_ℤ}
use hpx_mp.Task.Counters.{
  Unfinished, child, TaskState, TaskEvent, create_task, create_df_task, created, created_df, ended,
  remove, happen,
}

-- The task, number 0, with the counters of the team. The pointer to the counter of the group is null
-- where there is no group.
pub record GroupTask : Type 0 where
  pub in_taskgroup : Bool
  pub tg_num_tasks : Option ℤ
  pub tasks : TaskState

unfoldable pub ungrouped : TaskState → GroupTask
ungrouped tasks = record { in_taskgroup = false; tg_num_tasks = none; tasks = tasks }

-- What a call comes to: it dereferences a null pointer, it waits in its loop, or it returns.
pub data GroupOutcome : Type 0 where
  crashes waits : GroupOutcome
  returns : GroupTask → GroupOutcome

unfoldable pub start_taskgroup : GroupTask → GroupTask
start_taskgroup t = record t { in_taskgroup = true; tg_num_tasks = some (pos 0) }

unfoldable pub end_taskgroup : GroupTask → GroupOutcome
end_taskgroup t = elim t.tg_num_tasks [
  | none ↦ crashes
  | some c ↦
      if ltb_ℤ (pos 0) c
      then waits
      else returns (record t { in_taskgroup = false; tg_num_tasks = none })
]

-- What happens: the task starts or ends a task group, or creates a task in its team of so many
-- threads; or another task creates one, or one ends.
pub data GroupEvent : Type 0 where
  starts ends : GroupEvent
  creates : ℕ → GroupEvent
  creates_df : GroupEvent
  elsewhere : TaskEvent → GroupEvent

-- An end at an index where no unfinished task is does not happen.
abbrev or_same : TaskState → Option TaskState → TaskState
or_same s none = s
or_same s (some t) = t

unfoldable pub group_run : List GroupEvent → GroupTask → GroupOutcome
group_run [] t = returns t
group_run (starts ∷ es) t = group_run es (start_taskgroup t)
group_run (ends ∷ es) t = elim (end_taskgroup t) [
  | crashes ↦ crashes
  | waits ↦ waits
  | returns t' ↦ group_run es t'
]
group_run (creates n ∷ es) t =
    group_run es (record t { tasks = create_task false n t.in_taskgroup 0 t.tasks })
group_run (creates_df ∷ es) t =
    group_run es (record t { tasks = create_df_task false t.in_taskgroup 0 t.tasks })
group_run (elsewhere e ∷ es) t =
    group_run es (record t { tasks = or_same t.tasks (happen false e t.tasks) })

-- Every end of a group follows a start, with no other end between.
abbrev pub matched : Bool → List GroupEvent → Bool
matched in_group [] = true
matched in_group (starts ∷ es) = matched true es
matched in_group (ends ∷ es) = in_group && matched false es
matched in_group (creates n ∷ es) = matched in_group es
matched in_group (creates_df ∷ es) = matched in_group es
matched in_group (elsewhere e ∷ es) = matched in_group es

-- The tasks that have been created and have not ended.
abbrev pub unfinished_after : List GroupEvent → List Unfinished → List Unfinished
unfinished_after [] ts = ts
unfinished_after (starts ∷ es) ts = unfinished_after es ts
unfinished_after (ends ∷ es) ts = unfinished_after es ts
unfinished_after (creates n ∷ es) ts = unfinished_after es (child 0 ∷ ts)
unfinished_after (creates_df ∷ es) ts = unfinished_after es (child 0 ∷ ts)
unfinished_after (elsewhere (created n in_taskgroup p) ∷ es) ts = unfinished_after es (child p ∷ ts)
unfinished_after (elsewhere (created_df in_taskgroup p) ∷ es) ts =
    unfinished_after es (child p ∷ ts)
unfinished_after (elsewhere (ended k) ∷ es) ts = unfinished_after es (remove ts k)

abbrev group_counter : Bool → Option ℤ
group_counter in_group = if in_group then some (pos 0) else none

-- What a run comes to.
abbrev pub EndsAs : Bool → List Unfinished → GroupOutcome → Type 0
EndsAs good left o =
    ((good ≡ true) × ((t : GroupTask) × (o ≡ returns t) × (t.tasks.unfinished ≡ left)))
    ⊎ ((good ≡ false) × (o ≡ crashes))
