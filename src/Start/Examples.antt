-- ===== src/Start/Examples.antt =====
-- Starts of the runtime with 12 threads, and with HPX running.
use hpx_mp.Base.{ℕ, ◌≡◌, refl, true, false, none, some, List, [], ◌∷◌, arith}
use hpx_mp.Team.{DeviceIcv}
use hpx_mp.Start.Number.{codes}
use hpx_mp.Start.{
  Environment, HpxRuntime, start_backend, backend, make_argv, num_hard_coded_args, copy_args,
}
use hpx_mp.Start.Threads.{IsStarted, start_backend-forks}

-- Texts as Boost would print and split them, for the texts here.
abbrev lexical_cast : ℕ → List ℕ
lexical_cast n = codes "12"

abbrev split : List ℕ → List (List ℕ)
split text = codes "--hpx:bind=none" ∷ codes "-v" ∷ []

abbrev device : DeviceIcv
device = record { def_sched = 0; max_active_levels = 2; cancel = false }

abbrev twelve : Environment
twelve = record {
  hardware_concurrency = 4;
  omp_num_threads = some (codes "12");
  omp_hpx_args = some (codes "--hpx:bind=none;-v");
  external_hpx = none;
}

abbrev hpx_runs : Environment
hpx_runs = record twelve { external_hpx = some 6 }

four_entries :
    make_argv true (split [])
    ≡ some (codes "hpxMP")
      ∷ some (codes "--hpx:queuing=static")
      ∷ some (codes "--hpx:bind=none")
      ∷ some (codes "-v")
      ∷ []
unfolding make_argv num_hard_coded_args copy_args
four_entries = refl

start_backend-forks_example :
    (rt : HpxRuntime) × (start_backend true lexical_cast split none twelve ≡ some rt)
    × (backend true lexical_cast split (twelve ∷ hpx_runs ∷ []) none ≡ some rt)
    × IsStarted true lexical_cast split twelve device 12 rt
start_backend-forks_example =
    start_backend-forks true lexical_cast split twelve (hpx_runs ∷ []) (some (1 ∷ 2 ∷ [])) device
      refl ((omega arith, (omega arith, tt)), omega arith, omega arith)
