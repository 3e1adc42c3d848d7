-- ===== src/Region/Join/Joined.antt =====
-- What is past when `fork_worker` leaves its loop.
use hpx_mp.Base.{
  ℕ, ◌+◌, ◌-◌, ◌<◌, ◌≡◌, refl, true, false, arith, ◌==◌, if◌then◌else◌, update, update_self,
  update_ne, update-all, ap, sym, one_if, count_below, count_below-change, count_below-pos,
  count_below-all, ◌∙◌, inl, inr, Bool-cases,
}
use hpx_mp.Region.Join.{
  ConditionVariable, ThreadPc, working, waiting_children, notifying, finished, joined, is_running,
  Join, forked, create_child, end_child, return_microtask, leave, notify, test, sleep, wake, Step,
  creates, ends, returns, leaves, notifies, tests, sleeps, wakes, Reach, start, later,
}

-- The threads of the region that run.
abbrev pub running : (ℕ → ThreadPc) → ℕ → ℕ
running thread n = count_below (λ i. is_running (thread i)) n

running-update :
    (thread : ℕ → ThreadPc) (n i : ℕ) (p : ThreadPc)
    → i < n
    → running (update thread i p) n + one_if (is_running (thread i))
      ≡ running thread n + one_if (is_running p)
running-update thread n i p h =
    let c =
      count_below-change (λ j. is_running (update thread i p j)) (λ j. is_running (thread j)) n i h
        (λ j ne. ap is_running (update_ne thread i j p ne)) in
    c ∙ rw (update_self thread i p)

module _ (cv : ConditionVariable) where
  pub record IsCounted (n : ℕ) (s : Join cv) : Type 0 where
    pub counted : s.running_threads ≡ running s.thread n
    pub childless : (i : ℕ) → is_running (s.thread i) ≡ false → s.num_child_tasks i ≡ 0
    pub over : s.parent ≡ joined → s.running_threads ≡ 0

  forked-IsCounted : (n : ℕ) → IsCounted n (forked cv n)
  unfolding forked
  forked-IsCounted n = record {
    counted = sym (count_below-all (λ i. true) n (λ i. refl));
    childless = λ i h. refl;
    over = λ h. cc;
  }

  -- A thread leaves: it was one of those that run.
  leave-IsCounted :
      (n i : ℕ) (s : Join cv)
      → i < n
      → s.thread i ≡ waiting_children
      → s.num_child_tasks i ≡ 0
      → IsCounted n s
      → IsCounted n (leave cv i s)
  unfolding leave
  leave-IsCounted n i s h e none_left w =
      let p = if s.running_threads - 1 == 0 then notifying else finished in
      let gone : is_running p ≡ false = ground arith in
      let c = running-update s.thread n i p h in
      record {
        counted = ground (arith, c, w.counted, gone);
        childless =
            update-all (λ j (q : ThreadPc). is_running q ≡ false → s.num_child_tasks j ≡ 0) s.thread
              i p (λ _. none_left) (λ j ne. w.childless j);
        over = λ q. omega (arith, w.over q);
      }

  notify-IsCounted :
      (n i : ℕ) (s : Join cv)
      → i < n
      → s.thread i ≡ notifying
      → IsCounted n s
      → IsCounted n (notify cv i s)
  unfolding notify
  notify-IsCounted n i s h e w =
      let c = running-update s.thread n i finished h in
      record {
        counted = ground (arith, c, w.counted, e);
        childless =
            update-all (λ j (q : ThreadPc). is_running q ≡ false → s.num_child_tasks j ≡ 0) s.thread
              i finished (λ _. w.childless i (rw e)) (λ j ne. w.childless j);
        over = w.over;
      }

  return-IsCounted :
      (n i : ℕ) (s : Join cv)
      → i < n
      → s.thread i ≡ working
      → IsCounted n s
      → IsCounted n (return_microtask cv i s)
  unfolding return_microtask
  return-IsCounted n i s h e w =
      let c = running-update s.thread n i waiting_children h in
      record {
        counted = ground (arith, c, w.counted, e);
        childless =
            update-all (λ j (q : ThreadPc). is_running q ≡ false → s.num_child_tasks j ≡ 0) s.thread
              i waiting_children (λ k. cc) (λ j ne. w.childless j);
        over = w.over;
      }

  create-IsCounted :
      (n i : ℕ) (s : Join cv)
      → s.thread i ≡ working
      → IsCounted n s
      → IsCounted n (create_child cv i s)
  unfolding create_child
  create-IsCounted n i s e w = record {
    counted = w.counted;
    childless =
        update-all (λ j (m : ℕ). is_running (s.thread j) ≡ false → m ≡ 0) s.num_child_tasks i
          (s.num_child_tasks i + 1) (λ k. ground (arith, e)) (λ j ne. w.childless j);
    over = w.over;
  }

  end-IsCounted : (n i : ℕ) (s : Join cv) → IsCounted n s → IsCounted n (end_child cv i s)
  unfolding end_child
  end-IsCounted n i s w = record {
    counted = w.counted;
    childless =
        update-all (λ j (m : ℕ). is_running (s.thread j) ≡ false → m ≡ 0) s.num_child_tasks i
          (s.num_child_tasks i - 1) (λ k. omega (arith, w.childless i k)) (λ j ne. w.childless j);
    over = w.over;
  }

  test-IsCounted : (n : ℕ) (s : Join cv) → IsCounted n s → IsCounted n (test cv s)
  unfolding test
  test-IsCounted n s w = record {
    counted = w.counted;
    childless = w.childless;
    over = λ h. ground arith;
  }

  Step-IsCounted : (n : ℕ) (s t : Join cv) → Step cv n s t → IsCounted n s → IsCounted n t
  unfolding sleep wake
  Step-IsCounted n s t (creates i h e) w = create-IsCounted n i s e w
  Step-IsCounted n s t (ends i h e) w = end-IsCounted n i s w
  Step-IsCounted n s t (returns i h e) w = return-IsCounted n i s h e w
  Step-IsCounted n s t (leaves i h e z) w = leave-IsCounted n i s h e z w
  Step-IsCounted n s t (notifies i h e) w = notify-IsCounted n i s h e w
  Step-IsCounted n s t (tests e) w = test-IsCounted n s w
  Step-IsCounted n s t (sleeps e) w = record {
    counted = w.counted;
    childless = w.childless;
    over = λ h. cc;
  }
  Step-IsCounted n s t (wakes e a) w = record {
    counted = w.counted;
    childless = w.childless;
    over = λ h. cc;
  }

  Reach-IsCounted : (n : ℕ) (s : Join cv) → Reach cv n s → IsCounted n s
  Reach-IsCounted n s start = forked-IsCounted n
  Reach-IsCounted n s (later {s = u} r st) = Step-IsCounted n u s st (Reach-IsCounted n u r)

  -- In the build with OMP_COMPLIANT: whatever the order of the steps, when the forking thread is past
  -- its loop, every thread of the region has taken itself from `running_threads`, its microtask
  -- returned, and its count of child tasks is 0.
  pub Reach-joined :
      (n i : ℕ) (s : Join cv)
      → Reach cv n s
      → s.parent ≡ joined
      → i < n
      → (is_running (s.thread i) ≡ false) × (s.num_child_tasks i ≡ 0)
  Reach-joined n i s r e h =
      let w = Reach-IsCounted n s r in
      let gone : is_running (s.thread i) ≡ false = elim (Bool-cases (is_running (s.thread i))) [
        | inl more ↦ absurd (
            omega (
              arith,
              count_below-pos (λ j. is_running (s.thread j)) n i h more,
              w.over e,
              w.counted,
            ))
        | inr gone ↦ gone
      ] in
      (gone, w.childless i gone)
