-- ===== src/Task/Thunk/Ends.antt =====
-- How often a task is run and freed.
use hpx_mp.Base.{
  ℕ, Bool, ◌+◌, ◌<◌, ◌≡◌, ◌≢◌, refl, ◌⊎◌, inl, inr, true, false, none, some, arith, ltb, ◌>>=◌,
  dec_lt, ℕ_discrete, ap, ◌∙◌,
}
use hpx_mp.Task.Thunk.{
  Thunk, allocated, task_setup, create_task, create_df_task, TaskCall, omp_task, omp_task_parts,
  omp_task_with_deps, omp_task_if0, omp_task_begin_if0, task_call, settle, task_life,
}

-- A task with dependences.
abbrev pub has_deps : TaskCall → Bool
has_deps omp_task = false
has_deps omp_task_parts = false
has_deps (omp_task_with_deps a b) = ltb 0 (a + b)
has_deps omp_task_if0 = false

-- Run once; freed or not.
abbrev pub ran_once : Bool → Thunk
ran_once freed = record { freed = freed; runs = 1; pending = 0 }

task-once : (n : ℕ) → (create_task n allocated >>= λ t. settle t.pending t) ≡ some (ran_once true)
unfolding create_task settle task_setup allocated
task-once n = ground arith

df_task-several :
    (n : ℕ)
    → n ≢ 1
    → (create_df_task n allocated >>= λ t. settle t.pending t) ≡ some (ran_once true)
unfolding create_df_task create_task settle task_setup allocated
df_task-several n h = ground arith

df_task-one : (create_df_task 1 allocated >>= λ t. settle t.pending t) ≡ none
unfolding create_df_task create_task settle task_setup allocated
df_task-one = refl

if0-once :
    (n : ℕ)
    → (task_call omp_task_if0 n allocated >>= λ t. settle t.pending t) ≡ some (ran_once false)
unfolding task_call settle allocated omp_task_begin_if0
if0-once n = refl

with_deps-none :
    (a b n : ℕ)
    → a + b ≡ 0
    → task_call (omp_task_with_deps a b) n allocated ≡ create_task n allocated
unfolding task_call allocated
with_deps-none a b n e = ground arith

with_deps-some :
    (a b n : ℕ)
    → 0 < a + b
    → task_call (omp_task_with_deps a b) n allocated ≡ create_df_task n allocated
unfolding task_call allocated
with_deps-some a b n h = ground arith

-- In a team of one thread or more, a task that one of the four calls starts is run once and then
-- freed, with two exceptions: `__kmpc_omp_task_begin_if0` never frees it, and a task with
-- dependences in a team of one thread is used again after it is freed.
pub task_life-ends :
    (c : TaskCall) (n : ℕ)
    → 0 < n
    → ((c ≡ omp_task_if0) × (task_life c n ≡ some (ran_once false)))
      ⊎ ((has_deps c ≡ true) × (n ≡ 1) × (task_life c n ≡ none))
      ⊎ ((c ≢ omp_task_if0)
          × ((has_deps c ≡ false) ⊎ (n ≢ 1))
          × (task_life c n ≡ some (ran_once true)))
unfolding task_life task_call
task_life-ends omp_task n p = inr (inr (λ e. cc, inl refl, task-once n))
task_life-ends omp_task_parts n p = inr (inr (λ e. cc, inl refl, task-once n))
task_life-ends (omp_task_with_deps a b) n p = elim (dec_lt 0 (a + b)) [
  | no none_given ↦ inr (
      inr (
        λ e. cc,
        inl (ground arith),
        ap (λ r. r >>= λ t. settle t.pending t) (with_deps-none a b n (omega (arith, none_given)))
            ∙ task-once n,
      ))
  | yes some_given ↦
      let same = ap (λ r. r >>= λ t. settle t.pending t) (with_deps-some a b n some_given) in
      let given : ltb 0 (a + b) ≡ true = ground arith in
      elim (ℕ_discrete n 1) [
        | yes one ↦ inr (
            inl (
              given,
              one,
              same
                  ∙ ap (λ m. create_df_task m allocated >>= λ t. settle t.pending t) one
                  ∙ df_task-one,
            ))
        | no ne ↦ inr (inr (λ e. cc, inr ne, same ∙ df_task-several n ne))
      ]
]
task_life-ends omp_task_if0 n p = inl (refl, if0-once n)
