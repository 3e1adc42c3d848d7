-- ===== src/Loop/Dispatch/Requests.antt =====
-- Requests for work on one dynamically scheduled loop, in whatever order the threads of the team
-- make them: each is one fetch-and-add on the loop's counter.

use hpx_mp.Base.{
  ℕ, suc, ◌+◌, ◌*◌, ◌≤◌, ◌<◌, ◌≡◌, refl, ◌⊎◌, inl, inr, Bool, false, Option, some, List, [], ◌∷◌,
  arith, ◌>>=◌, length, get_elem?, get_elem?-set_self, get_elem?-lt_length, All,
}
use hpx_mp.Base.Int.{ℤ, pos, int32, +ℤ_parts}
use hpx_mp.Loop.Data.{LoopData}
use hpx_mp.Loop.StaticInit.{LoopArgs}
use hpx_mp.Loop.StaticInit.Exact.{mul_mono}
use hpx_mp.Loop.Dispatch.{kmp_next, current_loop, next_of_loop, next_dynamic, store_loop}
use hpx_mp.Loop.Dispatch.Dynamic.{
  Fits, AtRequest, after_request, after_request-AtRequest, chunk_args, has_chunk,
  next_dynamic-chunk,
}
use hpx_mp.Team.{ParallelRegion, OmpTaskData}

-- What lies behind the pointers before a request.
abbrev pub blank : LoopArgs
blank = record { last_iter = false; lower = pos 0; upper = pos 0; stride = pos 0 }

-- `__kmpc_dispatch_next_4` by the threads of a list, one after the other.
unfoldable pub requests :
    (ℕ → OmpTaskData) → ParallelRegion → List ℕ → Option (ParallelRegion × List (LoopArgs × Bool))
requests task team [] = some (team, [])
requests task team (g ∷ gs) = do
  (team', args, work) ← kmp_next int32 int32 g team (task g) blank
  (last, outs) ← requests task team' gs
  some (last, (args, work) ∷ outs)

-- The schedules that `kmp_next` serves from the shared counter.
abbrev pub IsDynamic : ℕ → Type 0
IsDynamic s = (s ≡ 35) ⊎ (s ≡ 36) ⊎ (s ≡ 37) ⊎ (s ≡ 67) ⊎ (s ≡ 68) ⊎ (s ≡ 69)

-- The loop at index `i` of the team has had `n` requests; every thread's latest loop is that one.
pub record Serving (l : ℤ) (span s c n i : ℕ) (task : ℕ → OmpTaskData) (team : ParallelRegion)
    : Type 0 where
  pub loop : LoopData
  pub there : get_elem? team.loop_list.items i ≡ some loop
  pub at : AtRequest l span s c n team.num_threads loop
  pub dynamic : IsDynamic loop.schedule
  pub latest : (g : ℕ) → g < team.num_threads → (task g).loop_num ≡ suc i

-- The chunks from number `n` on, one for each request.
abbrev pub chunks : ℤ → ℕ → ℕ → ℕ → ℕ → List ℕ → List (LoopArgs × Bool)
chunks l span s c n [] = []
chunks l span s c n (g ∷ gs) =
    (chunk_args l span s c n, has_chunk span s c n) ∷ chunks l span s c (n + 1) gs

served_dynamic :
    (team_size gtid : ℕ) (d : LoopData) (args : LoopArgs)
    → IsDynamic d.schedule
    → next_of_loop int32 int32 team_size gtid d args ≡ next_dynamic int32 int32 gtid d args
unfolding next_of_loop
served_dynamic team_size gtid d args (inl e) = rw e
served_dynamic team_size gtid d args (inr (inl e)) = rw e
served_dynamic team_size gtid d args (inr (inr (inl e))) = rw e
served_dynamic team_size gtid d args (inr (inr (inr (inl e)))) = rw e
served_dynamic team_size gtid d args (inr (inr (inr (inr (inl e))))) = rw e
served_dynamic team_size gtid d args (inr (inr (inr (inr (inr e))))) = rw e

pub current_loop-suc : (t : OmpTaskData) (i : ℕ) → t.loop_num ≡ suc i → current_loop t ≡ some i
unfolding current_loop
current_loop-suc t i h = ground arith

pub Fits-mono :
    {l : ℤ} {span s c n total : ℕ} → Fits l span s c total → n ≤ total → Fits l span s c n
Fits-mono {l} {span} {s} {c} {n} {total} f le = record {
  range = f.range;
  small = omega (arith, f.small, mul_mono n total (s * c) le);
  room = omega (
    arith,
    f.room,
    mul_mono n total (s * c) le,
    +ℤ_parts l (pos (span + n * s * c + s * c)),
    +ℤ_parts l (pos (span + total * s * c + s * c)),
  );
  requests = omega (arith, f.requests);
  step = f.step;
  chunks = f.chunks;
}

module _ {l : ℤ} {span s c i : ℕ} {task : ℕ → OmpTaskData} where
  pub after :
      {n : ℕ} {team : ParallelRegion} → ℕ → Serving l span s c n i task team → ParallelRegion
  after {n} {team} g w = store_loop team i (after_request w.loop c n g)

  after-Serving :
      {n : ℕ} {team : ParallelRegion} (g : ℕ) (w : Serving l span s c n i task team)
      → Serving l span s c (n + 1) i task (after g w)
  unfolding after store_loop
  after-Serving {n} {team} g w = record {
    loop = after_request w.loop c n g;
    there =
        get_elem?-set_self team.loop_list.items i (after_request w.loop c n g)
          (get_elem?-lt_length team.loop_list.items i w.loop w.there);
    at = after_request-AtRequest g w.at;
    dynamic = w.dynamic;
    latest = w.latest;
  }

  pub one_request :
      {n : ℕ} {team : ParallelRegion} (g : ℕ)
      → Fits l span s c n
      → (w : Serving l span s c n i task team) → g < team.num_threads
      → kmp_next int32 int32 g team (task g) blank
        ≡ some (after g w, chunk_args l span s c n, has_chunk span s c n)
  unfolding kmp_next after
  one_request {n} {team} g f w h = rw (
    current_loop-suc (task g) i (w.latest g h),
    w.there,
    served_dynamic team.num_threads g w.loop blank w.dynamic,
    next_dynamic-chunk g blank f w.at h,
  )

  num_threads-after :
      {n : ℕ} {team : ParallelRegion} (g : ℕ) (w : Serving l span s c n i task team)
      → (after g w).num_threads ≡ team.num_threads
  unfolding after store_loop
  num_threads-after g w = refl

  -- Two requests, and the loop after them.
  pub two_requests :
      {n : ℕ} {team : ParallelRegion} (g h : ℕ)
      → Fits l span s c (n + 1)
      → (w : Serving l span s c n i task team) → g < team.num_threads
      → h < team.num_threads
      → (last : ParallelRegion) × (requests task team (g ∷ h ∷ [])
          ≡ some (last, chunks l span s c n (g ∷ h ∷ [])))
        × (get_elem? last.loop_list.items i
            ≡ some (after_request (after_request w.loop c n g) c (n + 1) h))
  unfolding requests after-Serving
  two_requests {n} {team} g h f w lt lt' =
      let next = after-Serving g w in
      (
        after h next,
        rw (one_request g (Fits-mono f (omega arith)) w lt)
            (rw (one_request h f next (rw (num_threads-after g w) lt')) refl),
        (after-Serving h next).there,
      )

  -- On a loop with a dynamic schedule that fits for so many requests (`Fits`, `Serving`), requests
  -- go through and are given the chunks of the loop in turn, whichever threads of the team make
  -- them.
  pub requests-chunks :
      {n total : ℕ} {team : ParallelRegion} (gs : List ℕ)
      → Fits l span s c total
      → n + length gs ≤ total
      → Serving l span s c n i task team
      → All (λ g. g < team.num_threads) gs
      → (last : ParallelRegion) × (requests task team gs ≡ some (last, chunks l span s c n gs))
  unfolding requests
  requests-chunks {n} {total} {team} [] f few w h = (team, refl)
  requests-chunks {n} {total} {team} (g ∷ gs) f few w (h, hs) =
      let now : Fits l span s c n = Fits-mono f (omega arith) in
      let (last, e) =
        requests-chunks {n = n + 1} {team = after g w} gs f (omega arith) (after-Serving g w)
          (rw (num_threads-after g w) hs) in
      (last, rw (one_request g now w h) (rw e))
