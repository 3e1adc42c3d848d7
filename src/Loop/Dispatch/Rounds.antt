-- ===== src/Loop/Dispatch/Rounds.antt =====
-- Requests on an ascending loop of `int`s with a static chunked schedule, in whatever order the
-- threads of the team make them.
use hpx_mp.Base.{
  ℕ, suc, ◌+◌, ◌≤◌, ◌<◌, ◌≡◌, refl, sym, ap, ◌⊎◌, inl, inr, Bool, some, List, [], ◌∷◌, arith,
  get_elem?, get_elem?-set_self, get_elem?-lt_length, All, subst,
}
use hpx_mp.Base.Int.{ℤ, int32}
use hpx_mp.Loop.Data.{LoopData}
use hpx_mp.Loop.StaticInit.{LoopArgs}
use hpx_mp.Loop.Dispatch.{kmp_next, next_of_loop, next_static_chunked, store_loop}
use hpx_mp.Loop.Dispatch.Requests.{blank, requests, current_loop-suc}
use hpx_mp.Loop.Dispatch.Chunked.{
  FitsRounds, AtChunked, times, chunk_from, offset, after_chunk, next_chunked-chunk, times_self,
  after_chunk-AtChunked,
}
use hpx_mp.Team.{ParallelRegion, OmpTaskData}

-- The schedules that `kmp_next` serves so.
abbrev pub IsChunked : ℕ → Type 0
IsChunked s = (s ≡ 33) ⊎ (s ≡ 65)

served_chunked :
    (team_size gtid : ℕ) (d : LoopData) (args : LoopArgs)
    → IsChunked d.schedule
    → next_of_loop int32 int32 team_size gtid d args ≡ next_static_chunked int32 int32 gtid d args
unfolding next_of_loop
served_chunked team_size gtid d args (inl e) = rw e
served_chunked team_size gtid d args (inr e) = rw e

-- The loop at index `k` of the team, which is every thread's latest one.
pub record Serving (l : ℤ) (span s c k : ℕ) (task : ℕ → OmpTaskData) (seen : List ℕ)
    (team : ParallelRegion) : Type 0 where
  pub loop : LoopData
  pub there : get_elem? team.loop_list.items k ≡ some loop
  pub at : AtChunked l span s c team.num_threads seen loop
  pub chunked : IsChunked loop.schedule
  pub latest : (g : ℕ) → g < team.num_threads → (task g).loop_num ≡ suc k

-- What a thread that has made the requests of `seen` is given.
abbrev pub chunked_answer : ℤ → ℕ → ℕ → ℕ → ℕ → List ℕ → ℕ → LoopArgs × Bool
chunked_answer l span s c team seen g = chunk_from l span s c (offset s c team g (times seen g))

abbrev pub chunked_answers : ℤ → ℕ → ℕ → ℕ → ℕ → List ℕ → List ℕ → List (LoopArgs × Bool)
chunked_answers l span s c team seen [] = []
chunked_answers l span s c team seen (g ∷ gs) =
    chunked_answer l span s c team seen g ∷ chunked_answers l span s c team (g ∷ seen) gs

pub times-shift :
    (seen gs : List ℕ) (g j : ℕ) → times (g ∷ seen) j + times gs j ≡ times seen j + times (g ∷ gs) j
times-shift seen gs g j = ground arith

module _ {l : ℤ} {span s c k : ℕ} {task : ℕ → OmpTaskData} where
  after :
      {seen : List ℕ} {team : ParallelRegion}
      → ℕ
      → Serving l span s c k task seen team
      → ParallelRegion
  after {seen} {team} g w = store_loop team k (after_chunk w.loop g (times seen g) c)

  after-Serving :
      {seen : List ℕ} {team : ParallelRegion} (g : ℕ) (w : Serving l span s c k task seen team)
      → g < team.num_threads
      → Serving l span s c k task (g ∷ seen) (after g w)
  unfolding after store_loop
  after-Serving {seen} {team} g w lt = record {
    loop = after_chunk w.loop g (times seen g) c;
    there =
        get_elem?-set_self team.loop_list.items k (after_chunk w.loop g (times seen g) c)
          (get_elem?-lt_length team.loop_list.items k w.loop w.there);
    at = after_chunk-AtChunked g lt w.at;
    chunked = w.chunked;
    latest = w.latest;
  }

  one_request :
      {n : ℕ} {seen : List ℕ} {team : ParallelRegion} (g : ℕ)
      → FitsRounds l span s c team.num_threads n
      → (w : Serving l span s c k task seen team) → g < team.num_threads
      → times seen g < n
      → kmp_next int32 int32 g team (task g) blank
        ≡ some (
          after g w,
          (chunked_answer l span s c team.num_threads seen g).0,
          (chunked_answer l span s c team.num_threads seen g).1,
        )
  unfolding kmp_next after
  one_request {n} {seen} {team} g f w lt few = rw (
    current_loop-suc (task g) k (w.latest g lt),
    w.there,
    served_chunked team.num_threads g w.loop blank w.chunked,
    next_chunked-chunk g f w.at lt few,
  )

  num_threads-after :
      {seen : List ℕ} {team : ParallelRegion} (g : ℕ) (w : Serving l span s c k task seen team)
      → (after g w).num_threads ≡ team.num_threads
  unfolding after store_loop
  num_threads-after g w = refl

  pub chunked_requests-chunks :
      {n : ℕ} {seen : List ℕ} {team : ParallelRegion} (gs : List ℕ)
      → FitsRounds l span s c team.num_threads n
      → Serving l span s c k task seen team
      → All (λ g. g < team.num_threads) gs
      → ((g : ℕ) → times seen g + times gs g ≤ n)
      → (last : ParallelRegion) × (requests task team gs
          ≡ some (last, chunked_answers l span s c team.num_threads seen gs))
  unfolding requests
  chunked_requests-chunks {n} {seen} {team} [] f w h few = (team, refl)
  chunked_requests-chunks {n} {seen} {team} (g ∷ gs) f w (h, hs) few =
      let same = num_threads-after g w in
      let now : times seen g < n = omega (arith, few g, times_self gs g) in
      let (last, e) =
        chunked_requests-chunks {n = n} {seen = g ∷ seen} {team = after g w} gs
          (subst (λ t. FitsRounds l span s c t n) (sym same) f) (after-Serving g w h)
          (subst (λ t. All (λ j. j < t) gs) (sym same) hs)
          (λ j. omega (arith, few j, times-shift seen gs g j)) in
      (
        last,
        rw (one_request g f w h now) (
            rw e (
              ap
                (λ t. some (
                  last,
                  chunked_answer l span s c team.num_threads seen g
                      ∷ chunked_answers l span s c t (g ∷ seen) gs,
                ))
                same)),
      )
