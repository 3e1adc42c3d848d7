-- ===== src/Team/ForkCall.antt =====
-- `__kmpc_fork_call` of src/intel_hpxMP.cpp, which gathers the arguments of a parallel region and
-- forks it, and the calls around a region that the runtime has nothing to do for.
use hpx_mp.Base.{
  ℕ, zero, suc, ◌≤◌, ◌≡◌, refl, Option, none, some, List, [], ◌∷◌, ◌>>=◌, length, arith,
}
use hpx_mp.Team.{DeviceIcv, ParallelRegion, OmpTaskData, nested_region, parallel_region}
use hpx_mp.Team.Threads.{Forked, fork}

-- `argv[i] = va_arg( ap, void * )`, for each `i` below `argc`: an argument that the caller has not
-- passed is undefined.
unfoldable pub va_args : ℕ → List ℕ → Option (List ℕ)
va_args zero passed = some []
va_args (suc argc) [] = none
va_args (suc argc) (a ∷ passed) = do argv ← va_args argc passed; some (a ∷ argv)

-- The arguments of the threads of the new team, and the team.
unfoldable pub kmpc_fork_call :
    DeviceIcv → ParallelRegion → OmpTaskData → ℕ → List ℕ → Option (List ℕ × Forked)
kmpc_fork_call device team task argc passed = do
  argv ← va_args argc passed
  some (argv, fork device team task)

unfoldable pub kmpc_ok_to_fork : ℕ
kmpc_ok_to_fork = 1

-- The caller's team and task stay as they are: a serialized region is not one of the levels.
unfoldable pub kmpc_serialized_parallel :
    ParallelRegion × OmpTaskData → ParallelRegion × OmpTaskData
kmpc_serialized_parallel current = current

unfoldable pub kmpc_end_serialized_parallel :
    ParallelRegion × OmpTaskData → ParallelRegion × OmpTaskData
kmpc_end_serialized_parallel current = current

abbrev take : ℕ → List ℕ → List ℕ
take zero xs = []
take (suc n) [] = []
take (suc n) (x ∷ xs) = x ∷ take n xs

va_args-take :
    (argc : ℕ) (passed : List ℕ)
    → argc ≤ length passed
    → va_args argc passed ≡ some (take argc passed)
unfolding va_args
va_args-take zero passed h = refl
va_args-take (suc argc) [] h = absurd (omega arith)
va_args-take (suc argc) (a ∷ passed) h = rw (va_args-take argc passed (omega arith)) refl

-- Where the compiler passes the arguments that it announces, every thread of the new team gets them
-- in their order, and the team has as many threads as the task has asked for.
fork_call-passes :
    (device : DeviceIcv) (team : ParallelRegion) (task : OmpTaskData) (argc : ℕ) (passed : List ℕ)
    → argc ≤ length passed
    → (forked : Forked) × (kmpc_fork_call device team task argc passed
        ≡ some (take argc passed, forked))
      × (forked.team.num_threads ≡ task.threads_requested)
unfolding kmpc_fork_call fork nested_region parallel_region
fork_call-passes device team task argc passed h =
    (fork device team task, rw (va_args-take argc passed h) refl, refl)
