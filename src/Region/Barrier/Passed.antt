-- ===== src/Region/Barrier/Passed.antt =====
-- What has ended when a thread is past `barrier_wait`.
use mathlib.Core.Option.{some-injective}
use hpx_mp.Base.{
  ℕ, zero, suc, ◌+◌, ◌≤◌, ◌<◌, ◌≡◌, ◌≢◌, refl, sym, ◌∙◌, ap, subst, Bool, true, false, Option, none,
  some, List, [], ◌∷◌, arith, lt→ltb, update, update-all, update-all_two, get_elem?, length, All,
  All-get, ◌>>=◌,
}
use hpx_mp.Base.Int.{ℤ, pos, ◌+ℤ◌, ◌-ℤ◌, pos-+ℤ-pos, pos--ℤ-pos}
use hpx_mp.Task.Counters.{
  Unfinished, child, in_executor, TaskState, no_tasks, TaskEvent, ended, create_task,
  create_df_task, remove, end_task, happen,
}
use hpx_mp.Region.Barrier.{
  Barrier, BarrierPc, running, waiting_children, waiting_tasks, arriving, waiting, Barriers,
  team_start, tasks_over, Creates, plain, with_deps, enter_barrier, children_done, tasks_done,
  call_wait, leave_wait, Step, thread_creates, task_creates, task_ends, enters, childless, taskless,
  arrives, returns, Reach, start, later,
}

-- Every unfinished task has a counter that its end changes.
abbrev Owned : List Unfinished → Type 0
Owned [] = Unit
Owned (in_executor p ∷ ts) = ⊥
Owned (child p ∷ ts) = Owned ts

abbrev IsCounted : TaskState → Type 0
IsCounted s = Owned s.unfinished × (s.num_tasks ≡ pos (length s.unfinished))

length-remove {ℓ} :
    {A : Type ℓ} (xs : List A) (k : ℕ) (x : A)
    → get_elem? xs k ≡ some x
    → length xs ≡ length (remove xs k) + 1
length-remove [] k x e = cc
length-remove (y ∷ xs) zero x e = omega arith
length-remove (y ∷ xs) (suc k) x e = omega (arith, length-remove xs k x e)

length-remove_same {ℓ κ} :
    {A : Type ℓ} {B : Type κ} (xs : List A) (ys : List B) (k : ℕ)
    → length xs ≡ length ys
    → length (remove xs k) ≡ length (remove ys k)
length-remove_same [] [] k e = refl
length-remove_same [] (y ∷ ys) k e = absurd (omega (arith, e))
length-remove_same (x ∷ xs) [] k e = absurd (omega (arith, e))
length-remove_same (x ∷ xs) (y ∷ ys) zero e = omega (arith, e)
length-remove_same (x ∷ xs) (y ∷ ys) (suc k) e =
    ap suc (length-remove_same xs ys k (omega (arith, e)))

Owned-remove : (ts : List Unfinished) (k : ℕ) → Owned ts → Owned (remove ts k)
Owned-remove [] k h = tt
Owned-remove (in_executor p ∷ ts) k h = absurd h
Owned-remove (child p ∷ ts) zero h = h
Owned-remove (child p ∷ ts) (suc k) h = Owned-remove ts k h

Owned-get : (ts : List Unfinished) (k p : ℕ) → Owned ts → get_elem? ts k ≢ some (in_executor p)
Owned-get [] k q h e = cc
Owned-get (in_executor p ∷ ts) k q h e = h
Owned-get (child p ∷ ts) zero q h e = cc
Owned-get (child p ∷ ts) (suc k) q h e = Owned-get ts k q h e

All-remove {ℓ κ} :
    {A : Type ℓ} (P : A → Type κ) (xs : List A) (k : ℕ) → All P xs → All P (remove xs k)
All-remove P [] k h = tt
All-remove P (x ∷ xs) zero h = h.1
All-remove P (x ∷ xs) (suc k) h = (h.0, All-remove P xs k h.1)

abbrev MoreBy : ℕ → TaskState → TaskState → Type 0
MoreBy d s t = IsCounted t × (length t.unfinished ≡ length s.unfinished + d)

one_more : (a : ℕ) (z : ℤ) → z ≡ pos a → z +ℤ pos 1 ≡ pos (suc a)
one_more a z e = rw e (pos-+ℤ-pos a 1 ∙ ap pos (omega arith))

one_less : (a b : ℕ) (z : ℤ) → z ≡ pos a → a ≡ b + 1 → z -ℤ pos 1 ≡ pos b
one_less a b z e e' = rw e (pos--ℤ-pos a 1 (omega arith) ∙ ap pos (omega arith))

-- A task more.
created-IsCounted :
    (n p : ℕ) (e : TaskEvent) (s t : TaskState)
    → 1 < n
    → Creates n p e
    → happen false e s ≡ some t
    → IsCounted s
    → MoreBy 1 s t
unfolding happen create_task create_df_task
created-IsCounted n p e s t several (plain in_taskgroup) h (owned, count) =
    subst (MoreBy 1 s) (some-injective _ _ h) (
      rw (lt→ltb 1 n several)
        ((owned, one_more (length s.unfinished) s.num_tasks count), omega arith))
created-IsCounted n p e s t several (with_deps in_taskgroup) h (owned, count) =
    subst (MoreBy 1 s) (some-injective _ _ h)
      ((owned, one_more (length s.unfinished) s.num_tasks count), omega arith)

ended_from :
    (k : ℕ) (s t : TaskState) (o : Option Unfinished)
    → get_elem? s.unfinished k ≡ o
    → (o >>= λ task. some (end_task false task (record s { unfinished = remove s.unfinished k })))
      ≡ some t
    → IsCounted s
    → IsCounted t
      × (length s.unfinished ≡ length t.unfinished + 1)
      × (t.unfinished ≡ remove s.unfinished k)
unfolding end_task
ended_from k s t none at h w = cc
ended_from k s t (some (in_executor p)) at h w = absurd (Owned-get s.unfinished k p w.0 at)
ended_from k s t (some (child p)) at h (owned, count) =
    let fewer = length-remove s.unfinished k (child p) at in
    subst
      (λ (u : TaskState).
        IsCounted u
        × (length s.unfinished ≡ length u.unfinished + 1)
        × (u.unfinished ≡ remove s.unfinished k))
      (some-injective _ _ h)
      (
        (
          Owned-remove s.unfinished k owned,
          one_less (length s.unfinished) (length (remove s.unfinished k)) s.num_tasks count fewer,
        ),
        fewer,
        refl,
      )

-- Where a thread is tells how often it has called the barrier.
abbrev Level : BarrierPc → ℕ → ℕ → Type 0
Level running c a = a ≡ c
Level waiting_children c a = a ≡ c
Level waiting_tasks c a = a ≡ c
Level arriving c a = c ≡ a + 1
Level waiting c a = a ≡ c

Level-le : (pc : BarrierPc) (c a : ℕ) → Level pc c a → a ≤ c
Level-le running c a h = omega (arith, h)
Level-le waiting_children c a h = omega (arith, h)
Level-le waiting_tasks c a h = omega (arith, h)
Level-le arriving c a h = omega (arith, h)
Level-le waiting c a h = omega (arith, h)

-- Between two barriers.
abbrev is_past : BarrierPc → Bool
is_past running = true
is_past waiting_children = true
is_past waiting_tasks = true
is_past arriving = false
is_past waiting = false

record IsTogether (n : ℕ) (s : Barriers) : Type 0 where
  same_length : length s.born ≡ length s.tasks.unfinished
  counted : IsCounted s.tasks
  levels : (i : ℕ) → Level (s.pc i) (s.come i) (s.calls i)
  past : (i : ℕ) → is_past (s.pc i) ≡ true → (j : ℕ) → j < n → s.come i ≤ s.come j
  late : (k : ℕ) → ((j : ℕ) → j < n → k ≤ s.come j) → All (λ b. k ≤ b) s.born

start-IsTogether : (n : ℕ) → IsTogether n team_start
unfolding team_start no_tasks
start-IsTogether n = record {
  same_length = refl;
  counted = (tt, refl);
  levels = λ i. refl;
  past = λ i h j lt. omega arith;
  late = λ k h. tt;
}

-- A task of an age that all the others have, or more.
create-IsTogether :
    (n p b : ℕ) (s : Barriers) (e : TaskEvent) (t : TaskState)
    → 1 < n
    → Creates n p e
    → happen false e s.tasks ≡ some t
    → ((k : ℕ) → ((j : ℕ) → j < n → k ≤ s.come j) → k ≤ b)
    → IsTogether n s
    → IsTogether n (record s { tasks = t; born = b ∷ s.born })
create-IsTogether n p b s e t several c h old w =
    let (count, more) = created-IsCounted n p e s.tasks t several c h w.counted in
    record {
      same_length = omega (arith, w.same_length, more);
      counted = count;
      levels = w.levels;
      past = w.past;
      late = λ k all. (old k all, w.late k all);
    }

end-IsTogether :
    (n k : ℕ) (s : Barriers) (t : TaskState)
    → happen false (ended k) s.tasks ≡ some t
    → IsTogether n s
    → IsTogether n (record s { tasks = t; born = remove s.born k })
unfolding happen
end-IsTogether n k s t h w =
    let (count, fewer, left) =
      ended_from k s.tasks t (get_elem? s.tasks.unfinished k) refl h w.counted in
    record {
      same_length =
          length-remove_same s.born s.tasks.unfinished k w.same_length ∙ ap length (sym left);
      counted = count;
      levels = w.levels;
      past = w.past;
      late = λ m all. All-remove (λ b. m ≤ b) s.born k (w.late m all);
    }

-- A thread goes on without a change of its counts.
move-IsTogether :
    (n i : ℕ) (s : Barriers) (pc : BarrierPc)
    → ((k : ℕ) → k < n → s.come i ≤ s.come k)
    → Level pc (s.come i) (s.calls i)
    → IsTogether n s
    → IsTogether n (record s { pc = update s.pc i pc })
move-IsTogether n i s pc before level w = record {
  same_length = w.same_length;
  counted = w.counted;
  levels =
      update-all (λ j (q : BarrierPc). Level q (s.come j) (s.calls j)) s.pc i pc level
        (λ j ne. w.levels j);
  past =
      update-all (λ j (q : BarrierPc). is_past q ≡ true → (k : ℕ) → k < n → s.come j ≤ s.come k)
        s.pc i pc (λ _. before) (λ j ne. w.past j);
  late = w.late;
}

no_entries : {A : Type 0} (xs : List A) → length xs ≡ 0 → xs ≡ []
no_entries [] e = refl
no_entries (x ∷ xs) e = absurd (omega (arith, e))

-- No task is left.
none_left : (s : TaskState) → tasks_over s ≡ true → IsCounted s → length s.unfinished ≡ 0
unfolding tasks_over
none_left s over (owned, count) = ground (arith, count)

tasks_done-IsTogether :
    (n i : ℕ) (s : Barriers)
    → 1 < n
    → i < n
    → s.pc i ≡ waiting_tasks
    → tasks_over s.tasks ≡ true
    → IsTogether n s
    → IsTogether n (tasks_done n i s)
unfolding tasks_done
tasks_done-IsTogether n i s several lt at over w =
    let empty = none_left s.tasks over w.counted in
    let more : (j : ℕ) → s.come j ≤ update s.come i (s.come i + 1) j =
      update-all (λ j c. s.come j ≤ c) s.come i (s.come i + 1) (omega arith)
        (λ j ne. omega arith) in
    let level : s.calls i ≡ s.come i =
      subst (λ q. Level q (s.come i) (s.calls i)) at (w.levels i) in
    rw (lt→ltb 1 n several) (record {
      same_length = w.same_length;
      counted = w.counted;
      levels =
          update-all_two (λ j q c. Level q c (s.calls j)) s.pc s.come i arriving (s.come i + 1)
            (omega (arith, level)) (λ j ne. w.levels j);
      past =
          update-all_two
            (λ j q c. is_past q ≡ true → (k : ℕ) → k < n → c ≤ update s.come i (s.come i + 1) k)
            s.pc s.come i arriving (s.come i + 1) (λ e. cc)
            (λ j ne e k lt'. omega (arith, w.past j e k lt', more k));
      late = λ k all. subst (All (λ b. k ≤ b)) (sym (no_entries s.born (w.same_length ∙ empty))) tt;
    })

call_wait-IsTogether :
    (n i : ℕ) (s : Barriers) → s.pc i ≡ arriving → IsTogether n s → IsTogether n (call_wait i s)
unfolding call_wait
call_wait-IsTogether n i s at w = record {
  same_length = w.same_length;
  counted = w.counted;
  levels =
      update-all_two (λ j q a. Level q (s.come j) a) s.pc s.calls i waiting (s.calls i + 1)
        (let ahead : s.come i ≡ s.calls i + 1 =
            subst (λ q. Level q (s.come i) (s.calls i)) at (w.levels i) in
          omega (arith, ahead))
        (λ j ne. w.levels j);
  past =
      update-all (λ j (q : BarrierPc). is_past q ≡ true → (k : ℕ) → k < n → s.come j ≤ s.come k)
        s.pc i waiting (λ e. cc) (λ j ne. w.past j);
  late = w.late;
}

module _ {n : ℕ} (barrier : Barrier n) (several : 1 < n) where
  Step-IsTogether : (s t : Barriers) → Step barrier s t → IsTogether n s → IsTogether n t
  unfolding enter_barrier children_done leave_wait
  Step-IsTogether s t (thread_creates i e u lt at c h) w =
      create-IsTogether n i (s.come i) s e u several c h (λ k all. all i lt) w
  Step-IsTogether s t (task_creates k p b e u at c h) w =
      create-IsTogether n p b s e u several c h
        (λ m all. All-get (λ x. m ≤ x) s.born k b (w.late m all) at) w
  Step-IsTogether s t (task_ends k u h) w = end-IsTogether n k s u h w
  Step-IsTogether s t (enters i lt at) w =
      move-IsTogether n i s waiting_children (w.past i (rw at))
        (subst (λ q. Level q (s.come i) (s.calls i)) at (w.levels i)) w
  Step-IsTogether s t (childless i lt at over) w =
      move-IsTogether n i s waiting_tasks (w.past i (rw at))
        (subst (λ q. Level q (s.come i) (s.calls i)) at (w.levels i)) w
  Step-IsTogether s t (taskless i lt at over) w = tasks_done-IsTogether n i s several lt at over w
  Step-IsTogether s t (arrives i lt at) w = call_wait-IsTogether n i s at w
  Step-IsTogether s t (returns i lt at opens) w =
      let level : s.calls i ≡ s.come i =
        subst (λ q. Level q (s.come i) (s.calls i)) at (w.levels i) in
      move-IsTogether n i s running
        (λ k lt'. omega (
          arith,
          barrier.together s.calls i opens k lt',
          level,
          Level-le (s.pc k) (s.come k) (s.calls k) (w.levels k),
        ))
        level w

  Reach-IsTogether : (s : Barriers) → Reach barrier s → IsTogether n s
  Reach-IsTogether s start = start-IsTogether n
  Reach-IsTogether s (later {s = r} past st) = Step-IsTogether r s st (Reach-IsTogether r past)

  -- In a team of several threads without OMP_COMPLIANT, whatever the order of the steps of the
  -- threads and of their tasks: while a thread is in its own code, every thread of the team has come
  -- to at least as many barriers, at each with no task of the team left, and every task that has not
  -- ended was created, or the first of its ancestors was, in the code behind the latest of the
  -- thread's barriers or a later one.
  pub barrier-passed :
      (s : Barriers) (i : ℕ)
      → Reach barrier s
      → i < n
      → s.pc i ≡ running
      → ((j : ℕ) → j < n → s.come i ≤ s.come j)
        × (length s.born ≡ length s.tasks.unfinished)
        × All (λ b. s.come i ≤ b) s.born
  barrier-passed s i reach lt at =
      let w = Reach-IsTogether s reach in
      let all_here = w.past i (rw at) in (all_here, w.same_length, w.late (s.come i) all_here)
