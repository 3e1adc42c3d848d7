-- ===== src/Loop/Dispatch/Examples/Static.antt =====
-- A concrete loop with a static schedule for the theorems on `kmp_next`.
use hpx_mp.Base.{
  ℕ, ◌*◌, ◌+◌, ◌/◌, ◌%◌, ◌≤◌, ◌<◌, ◌≡◌, ◌≢◌, ◌⊎◌, refl, inl, ◌↔◌, Bool, some, List, [], arith, zero,
  suc, get_elem?,
}
use hpx_mp.Base.Int.{pos, ◌+ℤ◌, +ℤ_parts, arithmetic}
use hpx_mp.Loop.Data.{LoopData}
use hpx_mp.Loop.StaticInit.{LoopArgs}
use hpx_mp.Loop.StaticInit.Exact
use hpx_mp.Loop.Dispatch.Requests.{requests}
use hpx_mp.Loop.Dispatch.Share.{Works}
use hpx_mp.Loop.Dispatch.Static
use hpx_mp.Loop.Dispatch.Static.Request.{asked_count}
use hpx_mp.Loop.Dispatch.Static.{static_answers, static_requests-blocks}
use hpx_mp.Loop.Dispatch.Chunked.{FitsRounds, times}
use hpx_mp.Loop.Dispatch.Rounds
use hpx_mp.Loop.Dispatch.RoundRobin.{chunked_requests-share_out}
use hpx_mp.Loop.Dispatch.Examples.{nine, team_of, in_loop, order, in_team}
use hpx_mp.Team.{ParallelRegion}

-- With a static schedule.
abbrev nine_static : LoopData
nine_static = record nine { schedule = 34 }

static_fits : Exact.Fits (pos 0) 8 1 2
static_fits = record {
  range = (omega arith, omega arith);
  small = omega arith;
  room = omega (arith, +ℤ_parts (pos 0) (pos 10));
  step = omega arith;
  threads = omega arith;
}

no_more : (g : ℕ) → g < 2 → get_elem? nine_static.iter_count g ≡ some (asked_count [] g)
no_more zero lt = refl
no_more (suc zero) lt = refl
no_more (suc (suc g)) lt = absurd (omega arith)

nine_static-Serving : Static.Serving (pos 0) 8 1 0 (pos 3) in_loop [] (team_of nine_static)
unfolding arithmetic
nine_static-Serving = record {
  loop = nine_static;
  there = refl;
  at = record {
    lower = refl;
    upper = refl;
    stride = refl;
    chunk_size = refl;
    firsts = refl;
    lasts = refl;
    counts = refl;
    counted = no_more;
  };
  static = inl refl;
  latest = λ g h. refl;
}

static_requests-blocks_example :
    (last : ParallelRegion) × (requests in_loop (team_of nine_static) order
      ≡ some (last, static_answers (pos 0) 8 1 2 (pos 3) [] order))
static_requests-blocks_example =
    static_requests-blocks order static_fits nine_static-Serving
      (omega arith, (omega arith, (omega arith, (omega arith, tt))))

-- With a static schedule in chunks.
abbrev nine_chunked : LoopData
nine_chunked = record nine { schedule = 33 }

chunked_fits : FitsRounds (pos 0) 8 1 3 2 2
chunked_fits = record {
  range = (omega arith, omega arith);
  small = omega arith;
  room = omega (arith, +ℤ_parts (pos 0) (pos 20));
  step = omega arith;
  chunks = omega arith;
  threads = omega arith;
}

none_asked : (g : ℕ) → g < 2 → get_elem? nine_chunked.iter_count g ≡ some (pos (times [] g))
none_asked zero lt = refl
none_asked (suc zero) lt = refl
none_asked (suc (suc g)) lt = absurd (omega arith)

nine_chunked-Serving : Rounds.Serving (pos 0) 8 1 3 0 in_loop [] (team_of nine_chunked)
unfolding arithmetic
nine_chunked-Serving = record {
  loop = nine_chunked;
  there = refl;
  at = record {
    lower = refl;
    upper = refl;
    stride = refl;
    chunk = refl;
    size = refl;
    firsts = refl;
    lasts = refl;
    counts = refl;
    counted = none_asked;
  };
  chunked = inl refl;
  latest = λ g h. refl;
}

twice_each : (h : ℕ) → times order h ≤ 2
twice_each h = ground arith

chunked_requests-share_out_example :
    (last : ParallelRegion) × (outs : List (LoopArgs × Bool)) × (out : LoopArgs × Bool) × (requests
        in_loop
        (team_of nine_chunked)
        order
      ≡ some (last, outs))
    × (get_elem? outs 3 ≡ some out)
    × (out.0.lower ≡ pos 0 +ℤ pos (3 * (0 + 2 * 1 * 1)))
    × ((◌≢◌ {A = ℕ} 1 1)
        ⊎ (Works out 1 (pos 0 +ℤ pos (8 * 1)) ↔ ((0 ≡ 8 / 3 % 2) × (1 ≡ 8 / 3 / 2))))
chunked_requests-share_out_example =
    chunked_requests-share_out order 8 3 0 chunked_fits nine_chunked-Serving in_team twice_each
      (omega arith) refl (omega arith)
