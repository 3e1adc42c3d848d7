-- ===== src/Loop/Dispatch/Examples.antt =====
-- Concrete loops and teams for the theorems on `scheduler_init` and `kmp_next`.
pub mod Static
use hpx_mp.Base.{
  ◌≤◌, ℕ, ◌*◌, ◌/◌, ◌<◌, ◌≡◌, refl, inl, ◌↔◌, false, none, some, List, [], ◌∷◌, arith, All, update,
}
use hpx_mp.Base.Int.{pos, int32, ◌+ℤ◌, +ℤ_parts, arithmetic}
use hpx_mp.Loop.Data.{LoopData}
use hpx_mp.Loop.Dispatch.{LoopRequest, scheduler_init, kmp_next}
use hpx_mp.Loop.Dispatch.Dynamic.{Fits, chunk_args, has_chunk}
use hpx_mp.Loop.Dispatch.Requests.{Fits-mono, chunks, requests, Serving, blank}
use hpx_mp.Loop.Dispatch.Share.{Works, requests_share_out}
use hpx_mp.Loop.Dispatch.Init.{IsInStep, scheduler_init-IsInStep}
use hpx_mp.Loop.Ordered.{kmpc_ordered, ended, ordered_passes-both}
use hpx_mp.Loop.Dispatch.Dynamic.{after_request}
use hpx_mp.Base.{true, Bool, ◌+◌, ◌%◌, ◌≢◌, ◌⊎◌}
use hpx_mp.Loop.StaticInit.{LoopArgs}
use hpx_mp.Loop.Dispatch.Nowait.{next_loop-request}
use hpx_mp.Base.{zero, suc, get_elem?}
use hpx_mp.Team.{ParallelRegion, OmpTaskData}

-- Nine iterations in chunks of three.
abbrev pub nine : LoopData
nine = record {
  lower = pos 0;
  upper = pos 8;
  stride = pos 1;
  chunk = pos 3;
  ordered_count = pos 0;
  schedule_count = pos 0;
  num_threads = 2;
  schedule = 35;
  total_iter = pos 9;
  first_iter = pos 0 ∷ pos 0 ∷ [];
  last_iter = pos 0 ∷ pos 0 ∷ [];
  iter_count = pos 0 ∷ pos 0 ∷ [];
}

-- The same after one request.
abbrev begun : LoopData
begun = record nine { schedule_count = pos 1; last_iter = pos 3 ∷ pos 0 ∷ [] }

abbrev pub team_of : LoopData → ParallelRegion
team_of d = record {
  num_threads = 2;
  depth = 1;
  single_counter = 0;
  copyprivate_data = none;
  reduce_data = none ∷ none ∷ [];
  loop_list = record { items = d ∷ []; capacity = 1 };
}

abbrev pub in_loop : ℕ → OmpTaskData
in_loop g = record {
  local_thread_num = g;
  threads_requested = 0;
  single_counter = 0;
  loop_num = 1;
  in_taskgroup = false;
  icv = record { dyn = false; nest = false; nthreads = 2; active_levels = 1; levels = 1 };
}

fits : Fits (pos 0) 8 1 3 4
fits = record {
  range = (omega arith, omega arith);
  small = omega arith;
  room = omega (arith, +ℤ_parts (pos 0) (pos 23));
  requests = omega arith;
  step = omega arith;
  chunks = omega arith;
}

serving : Serving (pos 0) 8 1 3 0 0 in_loop (team_of nine)
unfolding arithmetic
serving = record {
  loop = nine;
  there = refl;
  at = record {
    lower = refl;
    upper = refl;
    stride = refl;
    chunk = refl;
    count = refl;
    firsts = refl;
    lasts = refl;
  };
  dynamic = inl refl;
  latest = λ g h. refl;
}

begun-Serving : Serving (pos 0) 8 1 3 1 0 in_loop (team_of begun)
unfolding arithmetic
begun-Serving = record {
  loop = begun;
  there = refl;
  at = record {
    lower = refl;
    upper = refl;
    stride = refl;
    chunk = refl;
    count = refl;
    firsts = refl;
    lasts = refl;
  };
  dynamic = inl refl;
  latest = λ g h. refl;
}

abbrev pub order : List ℕ
order = 0 ∷ 1 ∷ 1 ∷ 0 ∷ []

pub in_team : All (λ g. g < 2) order
in_team = (omega arith, (omega arith, (omega arith, (omega arith, tt))))

requests_share_out_example :
    (last : ParallelRegion) × (outs : List (LoopArgs × Bool)) × (out : LoopArgs × Bool) × (requests
        in_loop
        (team_of nine)
        order
      ≡ some (last, outs))
    × (get_elem? outs 2 ≡ some out)
    × (Works out 1 (pos 0 +ℤ pos (8 * 1)) ↔ (2 ≡ 8 / 3))
    × (((8 / 1 + 1) % 3 ≢ 0) ⊎ (out.0.last_iter ≡ false))
requests_share_out_example =
    requests_share_out order 8 2 fits serving in_team (omega arith) (omega arith)

step : IsInStep in_loop (team_of begun)
step = record {
  sized = (record { threads = refl; firsts = refl; lasts = refl; counts = refl }, tt);
  behind = λ g h. omega arith;
}

abbrev twice : ℕ → ℕ
twice n = n * 2

abbrev next_loop : LoopRequest
next_loop = record { schedtype = 35; lower = pos 0; upper = pos 99; stride = pos 1; chunk = pos 5 }

scheduler_init-IsInStep_example :
    (team' : ParallelRegion) × (t : OmpTaskData) × (scheduler_init twice 1
        (team_of begun)
        (in_loop 1)
        next_loop
      ≡ some (team', t))
    × (t.loop_num ≡ 2)
    × IsInStep (update in_loop 1 t) team'
scheduler_init-IsInStep_example =
    scheduler_init-IsInStep twice in_loop next_loop 1 (team_of begun) step (omega arith)

begun-Fits : Fits (pos 0) 8 1 3 1
begun-Fits = record {
  range = (omega arith, omega arith);
  small = omega arith;
  room = omega (arith, +ℤ_parts (pos 0) (pos 14));
  requests = omega arith;
  step = omega arith;
  chunks = omega arith;
}

-- Thread 1 goes on to the next loop, and the first chunk is handed out again.
next_loop-request_example :
    (team' : ParallelRegion) × (t : OmpTaskData) × (team'' : ParallelRegion) × (scheduler_init twice
        1
        (team_of begun)
        (in_loop 1)
        next_loop
      ≡ some (team', t))
    × (kmp_next int32 int32 0 team' (in_loop 0) blank
        ≡ some (team'', chunk_args (pos 0) 8 1 3 0, has_chunk 8 1 3 0))
next_loop-request_example =
    next_loop-request twice next_loop 1 0 (team_of begun) begun-Fits begun-Serving step refl
      (omega arith) (omega arith)

two_fit : Fits (pos 0) 8 1 3 1
two_fit = Fits-mono fits (omega arith)

-- Thread 0 is given iterations 0 to 2 and thread 1 is given 3 to 5; one ordered region ends.
ordered_passes-both_example :
    (last team' : ParallelRegion) × (requests in_loop (team_of nine) (0 ∷ 1 ∷ [])
      ≡ some (last, chunks (pos 0) 8 1 3 0 (0 ∷ 1 ∷ [])))
    × (ended 1 last (in_loop 0) ≡ some team')
    × (kmpc_ordered team' (in_loop 0) 0 ≡ some true)
    × (kmpc_ordered team' (in_loop 1) 1 ≡ some true)
unfolding serving
ordered_passes-both_example =
    ordered_passes-both 0 1 0 1 two_fit serving (omega arith) (omega arith) (omega arith) refl
      (omega arith) (omega arith)
