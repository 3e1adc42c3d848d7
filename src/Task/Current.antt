-- ===== src/Task/Current.antt =====
-- `get_task_data` of src/hpx_runtime.cpp, and what `task_setup` does to the data of the HPX thread
-- that runs it: a task's `omp_task_data` stands on the stack of `task_setup`.
use hpx_mp.Base.{
  ℕ, ◌<◌, ◌≡◌, ◌≢◌, refl, ◌∙◌, ap, ◌⊎◌, inl, inr, Bool, true, false, Option, none, some, ltb,
  lt→ltb, if◌then◌else◌, update, update_self, update_ne, update-all, dec_lt, ℕ_discrete, arith, ◌≤◌,
  subst,
}

-- `get_thread_data` by HPX thread, and which `omp_task_data` exist.
pub record ThreadData : Type 0 where
  pub thread_data : ℕ → Option ℕ
  pub live : ℕ → Bool

abbrev data_or : ℕ → Option ℕ → ℕ
data_or initial_thread none = initial_thread
data_or initial_thread (some d) = d

-- `self` is the HPX thread of the caller, if it is one.
unfoldable pub get_task_data : Option ℕ → ℕ → ThreadData → ℕ
get_task_data none initial_thread s = initial_thread
get_task_data (some self) initial_thread s = data_or initial_thread (s.thread_data self)

-- The begin and the end of `task_setup` on a thread: the thread keeps its pointer to the data.
unfoldable pub begin_task : ℕ → ℕ → ThreadData → ThreadData
begin_task self d s = record {
  thread_data = update s.thread_data self (some d);
  live = update s.live d true;
}

unfoldable pub leave_task : ℕ → ThreadData → ThreadData
leave_task d s = record s { live = update s.live d false }

-- What a task does on its own thread in a team of one thread: it runs tasks with data at these
-- places, each with what it does itself, one after the other.
pub data Work : Type 0 where
  nothing : Work
  task : ℕ → Work → Work → Work

unfoldable pub run_inline : ℕ → Work → ThreadData → ThreadData
run_inline self nothing s = s
run_inline self (task d inner rest) s =
    run_inline self rest (leave_task d (run_inline self inner (begin_task self d s)))

-- `create_task` by thread `self` in a team of `n` threads, to the end of the task: in a team of
-- several the task has an HPX thread of its own.
unfoldable pub create_and_run : ℕ → ℕ → ℕ → ℕ → Work → ThreadData → ThreadData
create_and_run n self other d inner s =
    let thread = if ltb 1 n then other else self in
    leave_task d (run_inline thread inner (begin_task thread d s))

-- What does not exist before a task does not exist after it.
abbrev IsGone : ℕ → ThreadData → ThreadData → Type 0
IsGone a s t = s.live a ≡ false → t.live a ≡ false

task-IsGone :
    (self d a : ℕ) (inner : Work) (s : ThreadData)
    → ((t : ThreadData) → IsGone a t (run_inline self inner t))
    → IsGone a s (leave_task d (run_inline self inner (begin_task self d s)))
unfolding leave_task begin_task
task-IsGone self d a inner s ih dead =
    let t = run_inline self inner (begin_task self d s) in
    elim (ℕ_discrete d a) [
      | yes same ↦ subst (λ b. update t.live d false b ≡ false) same (update_self t.live d false)
      | no ne ↦
          update_ne t.live d a false ne
          ∙ ih (begin_task self d s) (update_ne s.live d a true ne ∙ dead)
    ]

run_inline-IsGone :
    (self : ℕ) (w : Work) (s : ThreadData) (a : ℕ) → IsGone a s (run_inline self w s)
unfolding run_inline
run_inline-IsGone self nothing s a dead = dead
run_inline-IsGone self (task d inner rest) s a dead =
    run_inline-IsGone self rest (leave_task d (run_inline self inner (begin_task self d s))) a
      (task-IsGone self d a inner s (λ t. run_inline-IsGone self inner t a) dead)

-- The data that a thread is left with.
abbrev LeftWith : ℕ → ThreadData → Type 0
LeftWith self s = (a : ℕ) × (s.thread_data self ≡ some a) × (s.live a ≡ false)

abbrev is_task : Work → Bool
is_task nothing = false
is_task (task d inner rest) = true

begin_left : (self d : ℕ) (s : ThreadData) → (begin_task self d s).thread_data self ≡ some d
unfolding begin_task
begin_left self d s = update_self s.thread_data self (some d)

-- After a task and what it runs, the thread is left with data that are gone.
one_left :
    (self d : ℕ) (inner : Work) (s : ThreadData)
    → ((is_task inner ≡ true → (t : ThreadData) → LeftWith self (run_inline self inner t)))
    → LeftWith self (leave_task d (run_inline self inner (begin_task self d s)))
unfolding leave_task run_inline
one_left self d nothing s ih =
    let t = begin_task self d s in (d, begin_left self d s, update_self t.live d false)
one_left self d (task d' inner rest) s ih =
    let t = run_inline self (task d' inner rest) (begin_task self d s) in
    let (a, at, dead) = ih refl (begin_task self d s) in
    (
      a,
      at,
      update-all (λ b (l : Bool). t.live b ≡ false → l ≡ false) t.live d false (λ _. refl)
          (λ b ne h. h) a dead,
    )

run_inline-LeftWith :
    (self : ℕ) (w : Work) (s : ThreadData) → is_task w ≡ true → LeftWith self (run_inline self w s)
unfolding run_inline
run_inline-LeftWith self nothing s e = cc
run_inline-LeftWith self (task d inner nothing) s e =
    one_left self d inner s (λ h t. run_inline-LeftWith self inner t h)
run_inline-LeftWith self (task d inner (task d' inner' rest)) s e =
    run_inline-LeftWith self (task d' inner' rest)
      (leave_task d (run_inline self inner (begin_task self d s))) refl

-- The other threads keep their data.
run_inline-other :
    (self other : ℕ) (w : Work) (s : ThreadData)
    → other ≢ self
    → (run_inline other w s).thread_data self ≡ s.thread_data self
unfolding run_inline begin_task leave_task
run_inline-other self other nothing s ne = refl
run_inline-other self other (task d inner rest) s ne =
    run_inline-other self other rest _ ne
    ∙ run_inline-other self other inner _ ne
    ∙ update_ne s.thread_data other self (some d) ne

-- A task creates a task on an HPX thread, and that ends, with whatever tasks it runs itself. In a
-- team of several threads `get_task_data` then gives the creating task's data, as before; in a team
-- of one thread it gives data that no longer exist.
pub create_and_run-current :
    (n self other d initial_thread : ℕ) (inner : Work) (s : ThreadData)
    → other ≢ self
    → ((1 < n)
        × (get_task_data (some self) initial_thread (create_and_run n self other d inner s)
            ≡ get_task_data (some self) initial_thread s))
      ⊎ ((n ≤ 1)
          × ((create_and_run n self other d inner s).live
                (get_task_data (some self) initial_thread (create_and_run n self other d inner s))
              ≡ false))
unfolding create_and_run get_task_data run_inline
create_and_run-current n self other d initial_thread inner s ne = elim (dec_lt 1 n) [
  | yes several ↦ inl (
    several,
    rw (lt→ltb 1 n several)
        (ap (data_or initial_thread) (run_inline-other self other (task d inner nothing) s ne)),
  )
  | no one ↦ inr (
    omega arith,
    let inline : ltb 1 n ≡ false = ground (arith, one) in
        let (a, at, dead) = run_inline-LeftWith self (task d inner nothing) s refl in
        rw inline (
          ap (λ k. (run_inline self (task d inner nothing) s).live (data_or initial_thread k)) at
          ∙ dead),
  )
]
