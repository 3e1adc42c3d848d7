-- ===== src/Region/Join/Examples.antt =====
-- Short runs of a region with one thread and with two.
use hpx_mp.Base.{ℕ, ◌≤◌, ◌⊎◌, ◌≡◌, refl, Bool, true, false, arith}
use hpx_mp.Region.Join.{
  ConditionVariable, notifying, finished, joined, waiting, is_running, Join, forked, create_child,
  end_child, return_microtask, leave, test, Step, creates, ends, returns, leaves, tests, Reach,
  start, later,
}
use hpx_mp.Region.Join.Joined.{Reach-joined}
use hpx_mp.Region.Join.Lost.{notify_out_of_turn}

-- A condition variable that knows only whether its one thread sleeps.
abbrev flag : ConditionVariable
flag = record {
  State = Bool;
  fresh = false;
  wait = λ c. true;
  notify_all = λ c. false;
  sleeping = λ c. c;
  wait_sleeps = λ c. refl;
  notify_wakes = λ c. refl;
}

-- The thread creates a task, which ends before the thread leaves.
abbrev one_task : Join flag
one_task = return_microtask flag 0 (end_child flag 0 (create_child flag 0 (forked flag 1)))

abbrev one_joined : Join flag
one_joined = test flag (leave flag 0 one_task)

one_joined-Reach : Reach flag 1 one_joined
unfolding test leave return_microtask end_child create_child forked
one_joined-Reach =
    later
      (later
        (later
          (later (later start (creates 0 (omega arith) refl)) (ends 0 (omega arith) (omega arith)))
          (returns 0 (omega arith) refl))
        (leaves 0 (omega arith) refl refl))
      (tests refl)

Reach-joined_example :
    (is_running (one_joined.thread 0) ≡ false) × (one_joined.num_child_tasks 0 ≡ 0)
unfolding test leave return_microtask end_child create_child forked
Reach-joined_example = Reach-joined flag 1 0 one_joined one_joined-Reach refl (omega arith)

notify_out_of_turn_example :
    ((s : Join flag) × Reach flag 2 s
      × (s.parent ≡ waiting)
      × ((i : ℕ) → (2 ≤ i) ⊎ (s.thread i ≡ finished))
      × ((t : Join flag) → ¬ Step flag 2 s t))
    × ((s : Join flag) × Reach flag 2 s × (s.parent ≡ joined) × (s.thread 1 ≡ notifying))
notify_out_of_turn_example = notify_out_of_turn flag 2 (omega arith)
