-- ===== src/Region/Join/Lost.antt =====
-- Two ways in which the last thread's notification comes at the wrong time: before the forking
-- thread sleeps, and after it has left the loop, when its condition variable is gone.
use hpx_mp.Base.{
  ℕ, zero, suc, ◌+◌, ◌-◌, ◌≤◌, ◌<◌, ◌≡◌, refl, true, arith, ◌==◌, if◌then◌else◌, update_self,
  dec_lt, ◌⊎◌, inl, inr, ℕ_discrete,
}
use hpx_mp.Region.Join.{
  ConditionVariable, working, waiting_children, notifying, finished, waiting, joined, Join, forked,
  return_microtask, leave, notify, test, sleep, Step, creates, ends, returns, leaves, notifies,
  tests, sleeps, wakes, Reach, start, later,
}

module _ (cv : ConditionVariable) (n : ℕ) where
  -- The threads below `k` come to the end of their microtasks and leave, from a state on.
  all_leave : ℕ → Join cv → Join cv
  all_leave zero s = s
  all_leave (suc k) s = leave cv k (return_microtask cv k (all_leave k s))

  -- `k` threads have left, the others work, and none has created a task.
  record HaveLeft (k : ℕ) (s t : Join cv) : Type 0 where
    rest : t.running_threads + k ≡ n
    left : (i : ℕ) → i < k → t.thread i ≡ (if i + 1 == n then notifying else finished)
    same : (i : ℕ) → k ≤ i → t.thread i ≡ working
    childless : (i : ℕ) → t.num_child_tasks i ≡ 0
    cond : t.cond ≡ s.cond
    parent : t.parent ≡ s.parent
    reach : Reach cv n t

  leave-HaveLeft :
      (k : ℕ) (s t : Join cv)
      → k < n
      → HaveLeft k s t
      → HaveLeft (suc k) s (leave cv k (return_microtask cv k t))
  unfolding leave return_microtask
  leave-HaveLeft k s t h w =
      let here = update_self t.thread k waiting_children in
      let p = if t.running_threads - 1 == 0 then notifying else finished in
      record {
        rest = omega (arith, w.rest);
        left = λ i lt. elim (ℕ_discrete i k) [
          | yes e ↦ ground (arith, e, w.rest)
          | no ne ↦
              let before : t.thread i ≡ (if i + 1 == n then notifying else finished) =
                w.left i (omega (arith, ne)) in
              ground (arith, before, ne)
        ];
        same = λ i lt.
            let before : t.thread i ≡ working = w.same i (omega arith) in ground (arith, before);
        childless = w.childless;
        cond = w.cond;
        parent = w.parent;
        reach =
            later (later w.reach (returns k h (w.same k (omega arith))))
              (leaves k h here (w.childless k));
      }

  all_leave-HaveLeft : (s : Join cv) (k : ℕ) → k ≤ n → HaveLeft 0 s s → HaveLeft k s (all_leave k s)
  unfolding all_leave
  all_leave-HaveLeft s zero h w = w
  all_leave-HaveLeft s (suc k) h w =
      leave-HaveLeft k s (all_leave k s) h (all_leave-HaveLeft s k (omega arith) w)

  forked-HaveLeft : HaveLeft 0 (forked cv n) (forked cv n)
  unfolding forked
  forked-HaveLeft = record {
    rest = omega arith;
    left = λ i h. elim h [ ];
    same = λ i h. refl;
    childless = λ i. refl;
    cond = refl;
    parent = refl;
    reach = start;
  }

  -- The forking thread finds threads running, and is about to wait.
  about_to_wait : Join cv
  about_to_wait = test cv (forked cv n)

  about_to_wait-HaveLeft : 0 < n → HaveLeft 0 about_to_wait about_to_wait
  unfolding about_to_wait test forked
  about_to_wait-HaveLeft h = record {
    rest = omega arith;
    left = λ i h. elim h [ ];
    same = λ i h. refl;
    childless = λ i. refl;
    cond = refl;
    parent = refl;
    reach = later start (tests refl);
  }

  -- The notification comes before the sleep.
  asleep : Join cv
  asleep = sleep cv (notify cv (n - 1) (all_leave n about_to_wait))

  -- The test comes before the notification.
  left_early : Join cv
  left_early = test cv (all_leave n (forked cv n))

  asleep-Reach : 0 < n → Reach cv n asleep
  unfolding asleep notify sleep about_to_wait test forked
  asleep-Reach h =
      let w = all_leave-HaveLeft about_to_wait n (omega arith) (about_to_wait-HaveLeft h) in
      let last : (all_leave n about_to_wait).thread (n - 1) ≡ notifying =
        ground (arith, w.left (n - 1) (omega arith)) in
      later (later w.reach (notifies (n - 1) (omega arith) last))
        (sleeps (ground (arith, w.parent)))

  asleep_finished : 0 < n → (i : ℕ) → i < n → asleep.thread i ≡ finished
  unfolding asleep notify sleep
  asleep_finished h i lt =
      let w = all_leave-HaveLeft about_to_wait n (omega arith) (about_to_wait-HaveLeft h) in
      let before : (all_leave n about_to_wait).thread i
          ≡ (if i + 1 == n then notifying else finished) =
        w.left i lt in
      ground (arith, before)

  asleep_childless : 0 < n → (i : ℕ) → asleep.num_child_tasks i ≡ 0
  unfolding asleep notify sleep
  asleep_childless h =
      (all_leave-HaveLeft about_to_wait n (omega arith) (about_to_wait-HaveLeft h)).childless

  asleep_sleeping : cv.sleeping asleep.cond ≡ true
  unfolding asleep notify sleep
  asleep_sleeping = cv.wait_sleeps _

  asleep_waiting : asleep.parent ≡ waiting
  unfolding asleep sleep
  asleep_waiting = refl

  -- Nothing can happen to a thread that is past `thread_setup`, nor to one that sleeps.
  stuck :
      (s t : Join cv)
      → s.parent ≡ waiting
      → cv.sleeping s.cond ≡ true
      → ((i : ℕ) → i < n → s.thread i ≡ finished)
      → ((i : ℕ) → s.num_child_tasks i ≡ 0)
      → ¬ Step cv n s t
  stuck s t p c f z (creates i h e) = cc (f i h)
  stuck s t p c f z (ends i h e) = omega (arith, z i)
  stuck s t p c f z (returns i h e) = cc (f i h)
  stuck s t p c f z (leaves i h e k) = cc (f i h)
  stuck s t p c f z (notifies i h e) = cc (f i h)
  stuck s t p c f z (tests e) = cc
  stuck s t p c f z (sleeps e) = cc
  stuck s t p c f z (wakes e k) = cc

  -- In a region of any number of threads, one or more, two states can be reached: one in which all
  -- its threads are finished, the forking thread is in `cond.wait`, and no further step is
  -- possible; and one in which the forking thread is past its loop while the last thread of the
  -- region is still to notify the condition variable, a local variable of the forking thread.
  pub notify_out_of_turn :
      0 < n
      → ((s : Join cv) × Reach cv n s
          × (s.parent ≡ waiting)
          × ((i : ℕ) → (n ≤ i) ⊎ (s.thread i ≡ finished))
          × ((t : Join cv) → ¬ Step cv n s t))
        × ((s : Join cv) × Reach cv n s × (s.parent ≡ joined) × (s.thread (n - 1) ≡ notifying))
  unfolding left_early test forked
  notify_out_of_turn h =
      let w = all_leave-HaveLeft (forked cv n) n (omega arith) forked-HaveLeft in
      let none_left : (all_leave n (forked cv n)).running_threads ≡ 0 = omega (arith, w.rest) in
      (
        (
          asleep,
          asleep-Reach h,
          asleep_waiting,
          λ i. elim (dec_lt i n) [
            | yes lt ↦ inr (asleep_finished h i lt)
            | no ge ↦ inl (omega (arith, ge))
          ],
          λ t.
              stuck asleep t asleep_waiting asleep_sleeping (asleep_finished h)
                (asleep_childless h),
        ),
        (
          left_early,
          later w.reach (tests (ground (arith, w.parent))),
          ground (arith, none_left),
          ground (arith, w.left (n - 1) (omega arith)),
        ),
      )
