-- ===== src/Start.antt =====
-- The start of the runtime: `start_backend` of src/intel_hpxMP.cpp, and the constructor of
-- `hpx_runtime` with `start_hpx` and `wait_for_startup` (src/hpx_runtime.cpp). What Boost
-- makes of a text is a parameter.
pub mod Number
pub mod Argv
pub mod Threads
pub mod Wait
pub mod Examples
use hpx_mp.Base.{
  ℕ, zero, suc, ◌+◌, ◌≡◌, Bool, true, false, Option, none, some, List, [], ◌∷◌, ◌++◌, ◌>>=◌, length,
  set, replicate, if◌then◌else◌,
}
use hpx_mp.Base.Int.{ℤ, pos, negsuc}
use hpx_mp.Start.Number.{codes, atoi}
use hpx_mp.Team.{ParallelRegion, OmpTaskData, parallel_region}
use hpx_mp.Team.Threads.{initial_task}

-- What the constructor finds: the processors, the environment, and the number of HPX's threads where
-- the program has already started HPX.
pub record Environment : Type 0 where
  pub hardware_concurrency : ℕ
  pub omp_num_threads : Option (List ℕ)
  pub omp_hpx_args : Option (List ℕ)
  pub external_hpx : Option ℕ

-- What `hpx::start` is given.
pub record HpxArguments : Type 0 where
  pub argv : List (Option (List ℕ))
  pub cfg : List (List ℕ)

pub record HpxRuntime : Type 0 where
  pub num_procs : ℕ
  pub implicit_region : ParallelRegion
  pub initial_thread : OmpTaskData
  pub starts_hpx : Option HpxArguments

unfoldable pub num_hard_coded_args : Bool → ℕ
num_hard_coded_args compliant = if compliant then 2 else 1

-- `for (i = 0; i < hpx_args.size(); ++i) argv[i + num_hard_coded_args] = hpx_args[i].c_str();`
unfoldable pub copy_args : ℕ → List (List ℕ) → List (Option (List ℕ)) → List (Option (List ℕ))
copy_args i [] argv = argv
copy_args i (a ∷ hpx_args) argv = copy_args (suc i) hpx_args (set argv i (some a))

-- The entries of a new array have no value: `none`.
unfoldable pub make_argv : Bool → List (List ℕ) → List (Option (List ℕ))
unfolding num_hard_coded_args copy_args
make_argv compliant hpx_args =
    let argc = length hpx_args + num_hard_coded_args compliant in
    let argv = copy_args (num_hard_coded_args compliant) hpx_args (replicate argc none) in
    let named = set argv 0 (some (codes "hpxMP")) in
    if compliant then set named 1 (some (codes "--hpx:queuing=static")) else named

module _ (compliant : Bool) (lexical_cast : ℕ → List ℕ) (split : List ℕ → List (List ℕ)) where
  abbrev pub split_args : Option (List ℕ) → List (List ℕ)
  split_args none = []
  split_args (some hpx_args_raw) = split hpx_args_raw

  unfoldable pub start_hpx : Environment → ℕ → HpxArguments
  start_hpx env initial_num_threads = record {
    argv = make_argv compliant (split_args env.omp_hpx_args);
    cfg =
        (codes "hpx.os_threads=" ++ lexical_cast initial_num_threads)
        ∷ codes "hpx.stacks.use_guard_pages=0"
        ∷ codes "hpx.run_hpx_main!=0"
        ∷ [];
  }

  abbrev asked : ℕ → Option (List ℕ) → Option ℤ
  asked num_procs none = some (pos num_procs)
  asked num_procs (some omp_num_threads) = atoi omp_num_threads

  abbrev pub made : Environment → ℕ → ℕ → HpxRuntime
  made env num_procs n = record {
    num_procs = num_procs;
    implicit_region = parallel_region 1;
    initial_thread = initial_task n;
    starts_hpx = elim env.external_hpx [ none ↦ some (start_hpx env n) | some threads ↦ none ];
  }

  abbrev own : Environment → ℤ → Option HpxRuntime
  own env (pos n) = some (made env env.hardware_concurrency n)
  own env (negsuc n) = none

  -- `none` is a negative number of threads, or one that is no `int`.
  unfoldable pub hpx_runtime : Environment → Option HpxRuntime
  hpx_runtime env = elim env.external_hpx [
    | some threads ↦ some (made env threads threads)
    | none ↦ do
      initial_num_threads ← asked env.hardware_concurrency env.omp_num_threads
      own env initial_num_threads
  ]

  -- `start_backend`: the environment is read by the first call alone.
  unfoldable pub start_backend : Option HpxRuntime → Environment → Option HpxRuntime
  start_backend none env = hpx_runtime env
  start_backend (some hpx_backend) env = some hpx_backend

  unfoldable pub backend : List Environment → Option HpxRuntime → Option HpxRuntime
  backend [] s = s
  backend (env ∷ envs) s = backend envs (start_backend s env)

-- `omp_get_num_procs`, and `hpx_runtime::get_num_procs` behind it.
unfoldable pub omp_get_num_procs : HpxRuntime → ℕ
omp_get_num_procs hpx_backend = hpx_backend.num_procs
