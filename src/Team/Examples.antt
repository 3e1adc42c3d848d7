-- ===== src/Team/Examples.antt =====
-- Concrete teams for the theorems on regions, `single` and reductions.
use hpx_mp.Base.{
  ◌==◌, zero, ℕ, suc, ◌+◌, ◌*◌, ◌≤◌, ◌<◌, ◌≡◌, ◌≢◌, refl, true, false, some, List, [], ◌∷◌, arith,
}
use hpx_mp.Team.{DeviceIcv, OmpTaskData, parallel_region}
use hpx_mp.Team.Threads.{initial_task, omp_in_parallel, IsFree, descend, fork-nested}
use hpx_mp.Team.Single.{singles, CountsDown, times, singles-CountsDown}
use hpx_mp.Team.Reduce.{combined, IsReduction}
use hpx_mp.Team.Reduce.Whole.{kmpc_reduce, one_if, kmpc_reduce-combined}

abbrev device : DeviceIcv
device = record { def_sched = 0; max_active_levels = 2; cancel = false }

free : IsFree device (initial_task 8)
unfolding initial_task
free = record { unnested = refl; below = omega arith; some_threads = omega arith }

-- Three regions deep, where the limit is two: thread 4 forks the second, thread 7 the third.
abbrev forking : List ℕ
forking = 7 ∷ 4 ∷ []

fork-nested_example :
    let (inner, thread) = descend device (1 ∷ forking) (parallel_region 1) (initial_task 8) in
    (inner.num_threads ≡ 8)
    × (inner.depth ≡ 0 + 3)
    × (thread.icv.levels ≡ 0 + 3)
    × (thread.icv.active_levels ≡ 0 + 3)
    × (omp_in_parallel thread ≡ true)
unfolding initial_task parallel_region
fork-nested_example =
    fork-nested device 8 1 forking (parallel_region 1) (initial_task 8) (omega arith) refl refl

abbrev threads : ℕ → OmpTaskData
threads g = initial_task 8

abbrev arrivals : List ℕ
arrivals = 2 ∷ 0 ∷ 2 ∷ 1 ∷ 1 ∷ 0 ∷ []

singles-CountsDown_example :
    CountsDown
      (singles (parallel_region 3) threads arrivals []).2
      (singles (parallel_region 3) threads arrivals []).0.single_counter
    × ((g : ℕ)
        → times g arrivals ≤ (singles (parallel_region 3) threads arrivals []).0.single_counter)
unfolding parallel_region initial_task
singles-CountsDown_example =
    singles-CountsDown (parallel_region 3) threads arrivals refl (λ g. refl)

addition : IsReduction ◌+◌ 0
addition = record {
  swaps = λ a b. omega arith;
  regroups = λ a b c. omega arith;
  neutral = λ a. omega arith;
}

abbrev address : ℕ → ℕ
address i = i * 8

apart : (i j : ℕ) → i ≢ j → address i ≢ address j
apart i j ne e = ne (omega (arith, e))

abbrev memory : ℕ → ℕ
memory a = a + 1

abbrev order : List ℕ
order = 1 ∷ 0 ∷ []

both_come : (i : ℕ) → i < 2 → 0 < times i order
both_come zero lt = omega arith
both_come (suc zero) lt = omega arith
both_come (suc (suc i)) lt = let none_left : ⊥ = omega arith in absurd none_left

kmpc_reduce-combined_example :
    ((result next : ℕ → ℕ) × (kmpc_reduce ◌+◌ false address (parallel_region 2) threads order memory
        ≡ some (result, next))
      × ((j : ℕ) → result j ≡ one_if (1 == j))
      × (next 8 ≡ combined ◌+◌ 0 (λ i. memory (address i)) 2)
      × ((a : ℕ) → a ≢ 8 → next a ≡ memory a))
    × (kmpc_reduce ◌+◌ true address (parallel_region 2) threads order memory
        ≡ some (λ j. 2, memory))
unfolding parallel_region initial_task
kmpc_reduce-combined_example =
    kmpc_reduce-combined addition address apart (parallel_region 2) threads 1 (0 ∷ []) memory refl
      (refl, (refl, tt)) ((omega arith, tt), (tt, tt)) (omega arith, (omega arith, tt)) both_come
      (omega arith)
