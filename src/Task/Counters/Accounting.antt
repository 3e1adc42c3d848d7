-- ===== src/Task/Counters/Accounting.antt =====
-- What the counter of a task's children counts.
use mathlib.Core.Option.{some-injective}
use hpx_mp.Base.{
  ℕ, zero, suc, ◌+◌, ◌≤◌, ◌≡◌, ◌≢◌, refl, sym, ◌∙◌, ap, ◌↔◌, Bool, true, false, Option, none, some,
  List, [], ◌∷◌, ◌==◌, ==_iff, arith, ◌>>=◌, if◌then◌else◌, ltb, not, get_elem?, update-all, subst,
  Bool-cases, inl, inr,
}
use hpx_mp.Base.Int.{ℤ, pos, ◌+ℤ◌, ◌-ℤ◌, ltb_ℤ}
use hpx_mp.Task.Counters.{
  Unfinished, child, in_executor, TaskState, no_tasks, TaskEvent, more, create_task, create_df_task,
  remove, end_task, happen, happens, task_wait_over,
}

-- The unfinished tasks that `p` has created, and those of them in an executor of a task group.
abbrev pub children : ℕ → List Unfinished → ℕ
children p [] = 0
children p (child q ∷ ts) = if q == p then 1 + children p ts else children p ts
children p (in_executor q ∷ ts) = if q == p then 1 + children p ts else children p ts

abbrev pub in_executors : ℕ → List Unfinished → ℕ
in_executors p [] = 0
in_executors p (child q ∷ ts) = in_executors p ts
in_executors p (in_executor q ∷ ts) = if q == p then 1 + in_executors p ts else in_executors p ts

-- The unfinished tasks whose end changes the counter of `p`.
abbrev to_end : ℕ → List Unfinished → ℕ
to_end p [] = 0
to_end p (in_executor q ∷ ts) = to_end p ts
to_end p (child q ∷ ts) = if q == p then 1 + to_end p ts else to_end p ts

children-parts : (p : ℕ) (ts : List Unfinished) → children p ts ≡ in_executors p ts + to_end p ts
children-parts p [] = refl
children-parts p (child q ∷ ts) = ground (arith, children-parts p ts)
children-parts p (in_executor q ∷ ts) = ground (arith, children-parts p ts)

-- Without `OMP_COMPLIANT`, a task with dependences that `p` creates in a task group is not counted
-- when it is created.
abbrev uncounted_one : Bool → TaskEvent → ℕ → ℕ
uncounted_one compliant (TaskEvent.created n in_taskgroup q) p = 0
uncounted_one compliant (TaskEvent.created_df in_taskgroup q) p =
    if compliant then 0 else if in_taskgroup then if q == p then 1 else 0 else 0
uncounted_one compliant (TaskEvent.ended i) p = 0

abbrev pub uncounted : Bool → List TaskEvent → ℕ → ℕ
uncounted compliant [] p = 0
uncounted compliant (e ∷ es) p = uncounted_one compliant e p + uncounted compliant es p

up : (a b : ℕ) → (pos a -ℤ pos b) +ℤ pos 1 ≡ pos (1 + a) -ℤ pos b
unfolding ◌+ℤ◌ ◌-ℤ◌
up a b = ground arith

down : (a b : ℕ) → (pos (1 + a) -ℤ pos b) -ℤ pos 1 ≡ pos a -ℤ pos b
unfolding ◌+ℤ◌ ◌-ℤ◌
down a b = ground arith

level : (a b : ℕ) → pos a -ℤ pos b ≡ pos (1 + a) -ℤ pos (1 + b)
unfolding ◌-ℤ◌
level a b = ground arith

abbrev Counted : (ℕ → ℤ) → List Unfinished → (ℕ → ℕ) → Type 0
Counted c u m = (p : ℕ) → c p ≡ pos (to_end p u) -ℤ pos (m p)

same : (p : ℕ) → (p == p) ≡ true
same p = (==_iff p p).1 refl

differ : (p q : ℕ) → p ≢ q → (p == q) ≡ false
differ p q ne = ground arith

more-Counted :
    (c : ℕ → ℤ) (u : List Unfinished) (m : ℕ → ℕ) (p : ℕ)
    → Counted c u m
    → Counted (more c p) (child p ∷ u) m
more-Counted c u m p h =
    update-all (λ q z. z ≡ pos (to_end q (child p ∷ u)) -ℤ pos (m q)) c p (c p +ℤ pos 1)
      (rw (same p) (ap (λ z. z +ℤ pos 1) (h p) ∙ up (to_end p u) (m p)))
      (λ q ne. rw (differ p q ne) (h q))

to_end-remove :
    (p : ℕ) (u : List Unfinished) (i : ℕ) (t : Unfinished)
    → get_elem? u i ≡ some t
    → to_end p u ≡ to_end p (t ∷ remove u i)
to_end-remove p [] i t e = cc
to_end-remove p (x ∷ u) zero t e = ap (λ y. to_end p (y ∷ u)) (some-injective _ _ e)
to_end-remove p (in_executor r ∷ u) (suc i) (in_executor q) e =
    to_end-remove p u i (in_executor q) e
to_end-remove p (in_executor r ∷ u) (suc i) (child q) e = to_end-remove p u i (child q) e
to_end-remove p (child y ∷ u) (suc i) (in_executor q) e =
    ap (λ n. if y == p then 1 + n else n) (to_end-remove p u i (in_executor q) e)
to_end-remove p (child y ∷ u) (suc i) (child q) e =
    ap (λ n. if y == p then 1 + n else n) (to_end-remove p u i (child q) e)
    ∙ swapped (y == p) (q == p) (to_end p (remove u i))
  where
    swapped :
        (a b : Bool) (n : ℕ)
        → (if a then 1 + (if b then 1 + n else n) else if b then 1 + n else n)
          ≡ (if b then 1 + (if a then 1 + n else n) else if a then 1 + n else n)
    swapped true true n = refl
    swapped true false n = refl
    swapped false true n = refl
    swapped false false n = refl

end-Counted :
    (compliant : Bool) (s : TaskState) (m : ℕ → ℕ) (i : ℕ) (t : Unfinished)
    → get_elem? s.unfinished i ≡ some t
    → Counted s.num_child_tasks s.unfinished m
    → Counted
        (end_task compliant t (record s { unfinished = remove s.unfinished i })).num_child_tasks
        (end_task compliant t (record s { unfinished = remove s.unfinished i })).unfinished
        m
unfolding end_task
end-Counted compliant s m i (in_executor r) e h =
    λ p. h p ∙ ap (λ n. pos n -ℤ pos (m p)) (to_end-remove p s.unfinished i (in_executor r) e)
end-Counted compliant s m i (child q) e h =
    let left = remove s.unfinished i in
    update-all (λ p z. z ≡ pos (to_end p left) -ℤ pos (m p)) s.num_child_tasks q
      (s.num_child_tasks q -ℤ pos 1)
      (ap (λ z. z -ℤ pos 1)
          (h q
            ∙ ap (λ n. pos n -ℤ pos (m q))
                (to_end-remove q s.unfinished i (child q) e ∙ rw (same q) refl))
        ∙ down (to_end q left) (m q))
      (λ p ne.
        h p
        ∙ ap (λ n. pos n -ℤ pos (m p))
            (to_end-remove p s.unfinished i (child q) e ∙ rw (differ q p ne) refl))

create-Counted :
    (compliant : Bool) (n : ℕ) (in_taskgroup : Bool) (q : ℕ) (s : TaskState) (m : ℕ → ℕ)
    → Counted s.num_child_tasks s.unfinished m
    → Counted
        (create_task compliant n in_taskgroup q s).num_child_tasks
        (create_task compliant n in_taskgroup q s).unfinished
        m
unfolding create_task
create-Counted true n true q s m h = elim (Bool-cases (ltb 1 n)) [
  | inl several ↦ rw several h
  | inr one ↦ rw one (more-Counted s.num_child_tasks s.unfinished m q h)
]
create-Counted true n false q s m h = elim (Bool-cases (ltb 1 n)) [
  | inl several ↦ rw several (more-Counted s.num_child_tasks s.unfinished m q h)
  | inr one ↦ rw one (more-Counted s.num_child_tasks s.unfinished m q h)
]
create-Counted false n in_taskgroup q s m h = elim (Bool-cases (ltb 1 n)) [
  | inl several ↦ rw several (more-Counted s.num_child_tasks s.unfinished m q h)
  | inr one ↦ rw one (more-Counted s.num_child_tasks s.unfinished m q h)
]

-- The counts with what one event leaves out.
abbrev after_one : Bool → TaskEvent → (ℕ → ℕ) → ℕ → ℕ
after_one compliant e m p = m p + uncounted_one compliant e p

same_count :
    (c : ℕ → ℤ) (u : List Unfinished) (m m' : ℕ → ℕ)
    → ((p : ℕ) → m p ≡ m' p)
    → Counted c u m
    → Counted c u m'
same_count c u m m' e h p = h p ∙ ap (λ n. pos (to_end p u) -ℤ pos n) (e p)

left_out :
    (c : ℕ → ℤ) (u : List Unfinished) (m : ℕ → ℕ) (q : ℕ)
    → Counted c u m
    → Counted c (child q ∷ u) (λ p. m p + (if q == p then 1 else 0))
left_out c u m q h p = elim (Bool-cases (q == p)) [
  | inl own ↦
      rw own
        (h p ∙ level (to_end p u) (m p) ∙ ap (λ n. pos (1 + to_end p u) -ℤ pos n) (omega arith))
  | inr other ↦ rw other (h p ∙ ap (λ n. pos (to_end p u) -ℤ pos n) (omega arith))
]

create_df-Counted :
    (compliant in_taskgroup : Bool) (q : ℕ) (s : TaskState) (m : ℕ → ℕ)
    → Counted s.num_child_tasks s.unfinished m
    → Counted
        (create_df_task compliant in_taskgroup q s).num_child_tasks
        (create_df_task compliant in_taskgroup q s).unfinished
        (after_one compliant (TaskEvent.created_df in_taskgroup q) m)
unfolding create_df_task
create_df-Counted true true q s m h =
    same_count s.num_child_tasks s.unfinished m (λ p. m p + 0) (λ p. omega arith) h
create_df-Counted true false q s m h =
    same_count (more s.num_child_tasks q) (child q ∷ s.unfinished) m (λ p. m p + 0)
      (λ p. omega arith) (more-Counted s.num_child_tasks s.unfinished m q h)
create_df-Counted false true q s m h = left_out s.num_child_tasks s.unfinished m q h
create_df-Counted false false q s m h =
    same_count (more s.num_child_tasks q) (child q ∷ s.unfinished) m (λ p. m p + 0)
      (λ p. omega arith) (more-Counted s.num_child_tasks s.unfinished m q h)

ended-Counted :
    (compliant : Bool) (es : List TaskEvent) (s s' : TaskState) (m m' : ℕ → ℕ) (i : ℕ)
    (o : Option Unfinished)
    → get_elem? s.unfinished i ≡ o
    → Counted s.num_child_tasks s.unfinished m
    → ((t : TaskState)
        → Counted t.num_child_tasks t.unfinished m
        → happens compliant es t ≡ some s'
        → Counted s'.num_child_tasks s'.unfinished m')
    → ((o >>= λ task.
          some (end_task compliant task (record s { unfinished = remove s.unfinished i })))
        >>= happens compliant es)
      ≡ some s'
    → Counted s'.num_child_tasks s'.unfinished m'
ended-Counted compliant es s s' m m' i none at h ih e = cc
ended-Counted compliant es s s' m m' i (some t) at h ih e =
    ih (end_task compliant t (record s { unfinished = remove s.unfinished i }))
      (end-Counted compliant s m i t at h) e

happens-Counted :
    (compliant : Bool) (es : List TaskEvent) (s s' : TaskState) (m : ℕ → ℕ)
    → Counted s.num_child_tasks s.unfinished m
    → happens compliant es s ≡ some s'
    → Counted s'.num_child_tasks s'.unfinished (λ p. m p + uncounted compliant es p)
unfolding happens happen
happens-Counted compliant [] s s' m h e =
    subst (λ t. Counted t.num_child_tasks t.unfinished (λ p. m p + 0)) (some-injective _ _ e)
      (same_count s.num_child_tasks s.unfinished m (λ p. m p + 0) (λ p. omega arith) h)
happens-Counted compliant (TaskEvent.created n in_taskgroup q ∷ es) s s' m h e =
    same_count s'.num_child_tasks s'.unfinished _ _ (λ p. omega arith)
      (happens-Counted compliant es (create_task compliant n in_taskgroup q s) s' m
        (create-Counted compliant n in_taskgroup q s m h) e)
happens-Counted compliant (TaskEvent.created_df in_taskgroup q ∷ es) s s' m h e =
    same_count s'.num_child_tasks s'.unfinished _ _ (λ p. omega arith)
      (happens-Counted compliant es (create_df_task compliant in_taskgroup q s) s'
        (after_one compliant (TaskEvent.created_df in_taskgroup q) m)
        (create_df-Counted compliant in_taskgroup q s m h) e)
happens-Counted compliant (TaskEvent.ended i ∷ es) s s' m h e =
    ended-Counted compliant es s s' m _ i (get_elem? s.unfinished i) refl h
      (λ t c e'.
        same_count s'.num_child_tasks s'.unfinished _ _ (λ p. omega arith)
          (happens-Counted compliant es t s' m c e'))
      e

over_iff : (a b : ℕ) → (not (ltb_ℤ (pos 0) (pos a -ℤ pos b)) ≡ true) ↔ (a ≤ b)
unfolding ◌-ℤ◌
over_iff a b = (λ h. ground arith, λ h. ground arith)

no_tasks-Counted : Counted no_tasks.num_child_tasks no_tasks.unfinished (λ q. 0)
unfolding no_tasks ◌-ℤ◌
no_tasks-Counted q = refl

-- Whatever tasks have been created and have ended, and in whatever order: `taskwait` lets a task go
-- on exactly where at most so many of the tasks that it has created have not ended: those of them
-- that are in an executor of a task group, with `OMP_COMPLIANT`, and as many as it has created with
-- dependences inside a task group, without it.
pub task_wait_over-children :
    (compliant : Bool) (es : List TaskEvent) (s : TaskState) (p : ℕ)
    → happens compliant es no_tasks ≡ some s
    → (task_wait_over s p ≡ true)
      ↔ (children p s.unfinished ≤ in_executors p s.unfinished + uncounted compliant es p)
unfolding task_wait_over
task_wait_over-children compliant es s p e =
    let count = happens-Counted compliant es no_tasks s (λ q. 0) no_tasks-Counted e p in
    let parts = children-parts p s.unfinished in
    let (there, back) = over_iff (to_end p s.unfinished) (uncounted compliant es p) in
    let counter : s.num_child_tasks p
        ≡ pos (to_end p s.unfinished) -ℤ pos (uncounted compliant es p) =
      count ∙ ap (λ n. pos (to_end p s.unfinished) -ℤ pos n) (omega arith) in
    let test = λ (z : ℤ). not (ltb_ℤ (pos 0) z) in
    (
      λ h.
          let few : to_end p s.unfinished ≤ uncounted compliant es p =
            there (sym (ap test counter) ∙ h) in
          omega (arith, parts, few),
      λ h.
          let few : to_end p s.unfinished ≤ uncounted compliant es p = omega (arith, parts, h) in
          ap test counter ∙ back few,
    )
