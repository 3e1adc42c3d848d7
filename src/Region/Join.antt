-- ===== src/Region/Join.antt =====
-- `thread_setup` and `fork_worker` of src/hpx_runtime.cpp: how the threads of a region end, and
-- how the thread that forked them waits for that, in the build with OMP_COMPLIANT. The condition
-- variable is HPX's: a parameter. The mutex of the waiting thread is locked by no other.
mod Joined
mod Lost
pub mod Examples
use hpx_mp.Base.{ℕ, ◌+◌, ◌-◌, ◌<◌, ◌≡◌, Bool, true, false, if◌then◌else◌, ◌==◌, update}

-- `condition_variable_any`: a thread that waits sleeps until the next notification.
pub record ConditionVariable : Type 1 where
  pub State : Type 0
  pub fresh : State
  pub wait : State → State
  pub notify_all : State → State
  pub sleeping : State → Bool
  pub wait_sleeps : (c : State) → sleeping (wait c) ≡ true
  pub notify_wakes : (c : State) → sleeping (notify_all c) ≡ false

-- Where a thread of the region is: in its microtask, at the loop that waits for its child tasks,
-- about to notify, or past that.
pub data ThreadPc : Type 0 where
  working waiting_children notifying finished : ThreadPc

-- Where the forking thread is: at the test of its loop, in the body before it waits, in
-- `cond.wait`, or past the loop.
pub data ParentPc : Type 0 where
  testing entered waiting joined : ParentPc

-- A thread that has not taken itself from `running_threads`.
abbrev pub is_running : ThreadPc → Bool
is_running working = true
is_running waiting_children = true
is_running notifying = false
is_running finished = false

module _ (cv : ConditionVariable) where
  pub record Join : Type 0 where
    pub running_threads : ℕ
    pub thread : ℕ → ThreadPc
    pub num_child_tasks : ℕ → ℕ
    pub cond : cv.State
    pub parent : ParentPc

  unfoldable pub forked : ℕ → Join
  forked n = record {
    running_threads = n;
    thread = λ i. working;
    num_child_tasks = λ i. 0;
    cond = cv.fresh;
    parent = testing;
  }

  unfoldable pub create_child : ℕ → Join → Join
  create_child i s = record s {
    num_child_tasks = update s.num_child_tasks i (s.num_child_tasks i + 1);
  }

  unfoldable pub end_child : ℕ → Join → Join
  end_child i s = record s {
    num_child_tasks = update s.num_child_tasks i (s.num_child_tasks i - 1);
  }

  unfoldable pub return_microtask : ℕ → Join → Join
  return_microtask i s = record s { thread = update s.thread i waiting_children }

  -- `--running_threads == 0`
  unfoldable pub leave : ℕ → Join → Join
  leave i s =
      let running_threads = s.running_threads - 1 in
      record s {
        running_threads = running_threads;
        thread = update s.thread i (if running_threads == 0 then notifying else finished);
      }

  unfoldable pub notify : ℕ → Join → Join
  notify i s = record s { thread = update s.thread i finished; cond = cv.notify_all s.cond }

  -- `while( running_threads > 0 )`
  unfoldable pub test : Join → Join
  test s = record s { parent = if s.running_threads == 0 then joined else entered }

  unfoldable pub sleep : Join → Join
  sleep s = record s { parent = waiting; cond = cv.wait s.cond }

  unfoldable pub wake : Join → Join
  wake s = record s { parent = testing }

  -- A step of one of the `n` threads, of a child task, or of the forking thread.
  pub data Step (n : ℕ) (s : Join) : Join → Type 0 where
    creates : (i : ℕ) → i < n → s.thread i ≡ working → Step n s (create_child i s)
    ends : (i : ℕ) → i < n → 0 < s.num_child_tasks i → Step n s (end_child i s)
    returns : (i : ℕ) → i < n → s.thread i ≡ working → Step n s (return_microtask i s)
    leaves :
        (i : ℕ)
        → i < n
        → s.thread i ≡ waiting_children
        → s.num_child_tasks i ≡ 0
        → Step n s (leave i s)
    notifies : (i : ℕ) → i < n → s.thread i ≡ notifying → Step n s (notify i s)
    tests : s.parent ≡ testing → Step n s (test s)
    sleeps : s.parent ≡ entered → Step n s (sleep s)
    wakes : s.parent ≡ waiting → cv.sleeping s.cond ≡ false → Step n s (wake s)

  pub data Reach (n : ℕ) : Join → Type 0 where
    start : Reach n (forked n)
    later : {s t : Join} → Reach n s → Step n s t → Reach n t
