-- ===== src/Start/Threads.antt =====
-- The threads of the first parallel region, by what the start of the runtime finds.
use hpx_mp.Base.{
  ℕ, ◌^◌, ◌<◌, ◌≡◌, refl, ◌∙◌, ap, Bool, false, Option, none, some, List, [], ◌∷◌, ◌++◌, All,
}
use hpx_mp.Team.{DeviceIcv, parallel_region, nested_region}
use hpx_mp.Team.Threads.{initial_task, explicit_task, fork, omp_get_max_threads, omp_in_parallel}
use hpx_mp.Start.Number.{codes, decimal, digits_text, atoi-decimal}
use hpx_mp.Start.Argv.{expected_argv, make_argv-expected}
use hpx_mp.Start.{
  split_args, Environment, HpxArguments, HpxRuntime, made, start_hpx, hpx_runtime, start_backend,
  backend,
}

module _ (compliant : Bool) (lexical_cast : ℕ → List ℕ) (split : List ℕ → List (List ℕ)) where
  abbrev started : List Environment → Option HpxRuntime → Option HpxRuntime
  started = backend compliant lexical_cast split

  backend-kept : (envs : List Environment) (rt : HpxRuntime) → started envs (some rt) ≡ some rt
  unfolding backend start_backend
  backend-kept [] rt = refl
  backend-kept (env ∷ envs) rt = backend-kept envs rt

  -- What `hpx::start` is to be given.
  abbrev pub expected_start : Environment → ℕ → HpxArguments
  expected_start env n = record {
    argv = expected_argv compliant (split_args compliant lexical_cast split env.omp_hpx_args);
    cfg =
        (codes "hpx.os_threads=" ++ lexical_cast n)
        ∷ codes "hpx.stacks.use_guard_pages=0"
        ∷ codes "hpx.run_hpx_main!=0"
        ∷ [];
  }

  start_hpx-expected :
      (env : Environment) (n : ℕ)
      → start_hpx compliant lexical_cast split env n ≡ expected_start env n
  unfolding start_hpx
  start_hpx-expected env n =
      ap (λ v. record (expected_start env n) { argv = v })
        (make_argv-expected compliant (split_args compliant lexical_cast split env.omp_hpx_args))

  -- What the runtime has to be for `n` threads, started or found.
  pub record IsStarted (env : Environment) (device : DeviceIcv) (n : ℕ) (rt : HpxRuntime)
      : Type 0 where
    pub forks : (fork device rt.implicit_region rt.initial_thread).team.num_threads ≡ n
    pub max_threads : omp_get_max_threads rt.initial_thread ≡ n
    pub outside : omp_in_parallel rt.initial_thread ≡ false
    pub hpx :
        rt.starts_hpx
        ≡ elim env.external_hpx [ none ↦ some (expected_start env n) | some threads ↦ none ]

  made-IsStarted :
      (env : Environment) (device : DeviceIcv) (num_procs n : ℕ)
      → IsStarted env device n (made compliant lexical_cast split env num_procs n)
  unfolding fork omp_get_max_threads omp_in_parallel initial_task explicit_task nested_region
      parallel_region
  made-IsStarted env device num_procs n = record {
    forks = refl;
    max_threads = refl;
    outside = refl;
    hpx =
        ap (λ h. elim env.external_hpx [ none ↦ some h | some threads ↦ none ])
          (start_hpx-expected env n);
  }

  -- The threads that HPX has where the program has started it, or else those that OMP_NUM_THREADS
  -- says, or else one for each processor.
  abbrev pub expected_threads : Option ℕ → Option (List ℕ) → ℕ → ℕ
  expected_threads (some threads) ds processors = threads
  expected_threads none (some ds) processors = decimal 0 ds
  expected_threads none none processors = processors

  abbrev pub IsSetting : Option (List ℕ) → Type 0
  IsSetting none = Unit
  IsSetting (some ds) = All (λ d. d < 10) ds × (0 < decimal 0 ds) × (decimal 0 ds < 2 ^ 31)

  abbrev pub setting_text : Option (List ℕ) → Option (List ℕ)
  setting_text none = none
  setting_text (some ds) = some (digits_text ds)

  hpx_runtime-made :
      (env : Environment) (ds : Option (List ℕ)) (external : Option ℕ)
      → env.external_hpx ≡ external
      → env.omp_num_threads ≡ setting_text ds
      → IsSetting ds
      → (num_procs : ℕ) × (hpx_runtime compliant lexical_cast split env
          ≡ some (
              made compliant lexical_cast split env num_procs
                (expected_threads external ds env.hardware_concurrency)))
  unfolding hpx_runtime start_hpx
  hpx_runtime-made env ds (some threads) at e fits = (threads, rw at refl)
  hpx_runtime-made env none none at e fits = (env.hardware_concurrency, rw (at, e) refl)
  hpx_runtime-made env (some ds) none at e (small, nonzero, lt) =
      (env.hardware_concurrency, rw (at, e) (rw (atoi-decimal ds small lt) refl))

  -- Where OMP_NUM_THREADS is not set or is the digits of an `int` above 0: `start_backend` makes a
  -- runtime, and no later call changes anything of it, whatever the environment is then. The first
  -- parallel region then has as many threads as HPX has, where the program has started HPX, else as
  -- many as OMP_NUM_THREADS says, else one for each processor; `omp_get_max_threads` tells that
  -- number, and what is given to `hpx::start`, where HPX does not run yet, is that number, the
  -- program's name and every argument of OMP_HPX_ARGS in turn.
  pub start_backend-forks :
      (env : Environment) (envs : List Environment) (ds : Option (List ℕ)) (device : DeviceIcv)
      → env.omp_num_threads ≡ setting_text ds
      → IsSetting ds
      → (rt : HpxRuntime) × (start_backend compliant lexical_cast split none env ≡ some rt)
        × (backend compliant lexical_cast split (env ∷ envs) none ≡ some rt)
        × IsStarted env device (expected_threads env.external_hpx ds env.hardware_concurrency) rt
  unfolding backend start_backend hpx_runtime
  start_backend-forks env envs ds device e fits =
      let (num_procs, h) = hpx_runtime-made env ds env.external_hpx refl e fits in
      let n = expected_threads env.external_hpx ds env.hardware_concurrency in
      let rt = made compliant lexical_cast split env num_procs n in
      (
        rt,
        h,
        ap (λ s. backend compliant lexical_cast split envs s) h ∙ backend-kept envs rt,
        made-IsStarted env device num_procs n,
      )
