-- ===== src/Loop/Dispatch/Static.antt =====
-- Requests on a statically scheduled ascending loop of `int`s: each thread's first one is answered
-- with the block that `__kmpc_for_static_init_4` gives the thread.
pub mod Request
use hpx_mp.Base.{
  ℕ, suc, ◌+◌, ◌*◌, ◌<◌, ◌^◌, ◌≡◌, ◌≢◌, refl, sym, ◌∙◌, ap, ◌⊎◌, inl, inr, Bool, true, false,
  Option, none, some, List, [], ◌∷◌, arith, ◌==◌, ◌||◌, if◌then◌else◌, ◌>>=◌, length, length-set,
  get_elem?, get_elem?-set_self, get_elem?-set_ne, get_elem?-lt_length, set, All, ℕ_discrete, subst,
  Bool-cases, ==_iff,
}
use hpx_mp.Base.Int.{ℤ, pos, ◌+ℤ◌, int32, norm, add, quot, div?, norm_of_InRange}
use hpx_mp.Base.Int32.{norm-pos, norm_up}
use hpx_mp.Loop.Schedule.{kmp_sch_static}
use hpx_mp.Loop.Data.{LoopData}
use hpx_mp.Loop.StaticInit.{LoopArgs, omp_static_init, for_static_init_4}
use hpx_mp.Loop.StaticInit.Exact.{Fits, mul_mono, ascending, block_args, for_static_init_4-block}
use hpx_mp.Loop.Dispatch.{Served, kmp_next, next_of_loop, next_static, store_loop, write}
use hpx_mp.Loop.Dispatch.Dynamic.{write-some}
use hpx_mp.Loop.Dispatch.Requests.{blank, requests, current_loop-suc}
use hpx_mp.Team.{ParallelRegion, OmpTaskData}
use hpx_mp.Loop.Dispatch.Static.Request.{
  asked, AtStatic, after_first, first_request, again_request, after_first-AtStatic, again-AtStatic,
}

-- The schedules that `kmp_next` serves by `omp_static_init`.
abbrev pub IsStatic : ℕ → Type 0
IsStatic s = (s ≡ 34) ⊎ (s ≡ 40) ⊎ (s ≡ 66)

served_static :
    (team_size gtid : ℕ) (d : LoopData) (args : LoopArgs)
    → IsStatic d.schedule
    → next_of_loop int32 int32 team_size gtid d args ≡ next_static int32 int32 team_size gtid d args
unfolding next_of_loop
served_static team_size gtid d args (inl e) = rw e
served_static team_size gtid d args (inr (inl e)) = rw e
served_static team_size gtid d args (inr (inr e)) = rw e

-- The loop at index `k` of the team, which is every thread's latest one.
pub record Serving (l : ℤ) (span i k : ℕ) (chunk : ℤ) (task : ℕ → OmpTaskData) (seen : List ℕ)
    (team : ParallelRegion) : Type 0 where
  pub loop : LoopData
  pub there : get_elem? team.loop_list.items k ≡ some loop
  pub at : AtStatic l span i team.num_threads chunk seen loop
  pub static : IsStatic loop.schedule
  pub latest : (g : ℕ) → g < team.num_threads → (task g).loop_num ≡ suc k

-- What `__kmpc_for_static_init_4` gives a thread, and no work where it has had that.
abbrev pub with_work : Option LoopArgs → LoopArgs × Bool
with_work none = (blank, false)
with_work (some args) = (args, true)

abbrev pub static_given : ℤ → ℕ → ℕ → ℕ → ℤ → ℕ → LoopArgs × Bool
static_given l span i team chunk g =
    with_work
      (for_static_init_4 team g kmp_sch_static (pos i) chunk (ascending l span false (pos i)))

abbrev pub static_answer : ℤ → ℕ → ℕ → ℕ → ℤ → List ℕ → ℕ → LoopArgs × Bool
static_answer l span i team chunk seen g =
    if asked seen g then (blank, false) else static_given l span i team chunk g

abbrev pub static_answers : ℤ → ℕ → ℕ → ℕ → ℤ → List ℕ → List ℕ → List (LoopArgs × Bool)
static_answers l span i team chunk seen [] = []
static_answers l span i team chunk seen (g ∷ gs) =
    static_answer l span i team chunk seen g ∷ static_answers l span i team chunk (g ∷ seen) gs

store_loop-num_threads :
    (team : ParallelRegion) (k : ℕ) (d : LoopData)
    → (store_loop team k d).num_threads ≡ team.num_threads
unfolding store_loop
store_loop-num_threads team k d = refl

module _ {l : ℤ} {span i k : ℕ} {chunk : ℤ} {task : ℕ → OmpTaskData} where
  -- What the `switch` on the schedule gives, for the latest loop.
  kmp_next-served :
      {seen : List ℕ} {team : ParallelRegion} (g : ℕ) (w : Serving l span i k chunk task seen team)
      (d : LoopData) (args : LoopArgs) (work : Bool)
      → g < team.num_threads
      → next_static int32 int32 team.num_threads g w.loop blank
        ≡ some (record { loop = d; args = args; work = work })
      → kmp_next int32 int32 g team (task g) blank ≡ some (store_loop team k d, args, work)
  unfolding kmp_next
  kmp_next-served {team = team} g w d args work lt e = rw (
    current_loop-suc (task g) k (w.latest g lt),
    w.there,
    served_static team.num_threads g w.loop blank w.static ∙ e,
  )

  stored-Serving :
      {seen : List ℕ} {team : ParallelRegion} (g : ℕ) (w : Serving l span i k chunk task seen team)
      (d : LoopData)
      → AtStatic l span i team.num_threads chunk (g ∷ seen) d
      → IsStatic d.schedule
      → Serving l span i k chunk task (g ∷ seen) (store_loop team k d)
  unfolding store_loop
  stored-Serving {team = team} g w d a static = record {
    loop = d;
    there =
        get_elem?-set_self team.loop_list.items k d
          (get_elem?-lt_length team.loop_list.items k w.loop w.there);
    at = a;
    static = static;
    latest = w.latest;
  }

  -- One request, and the team after it.
  one_request :
      {seen : List ℕ} {team : ParallelRegion} (g : ℕ)
      → Fits l span i team.num_threads
      → Serving l span i k chunk task seen team
      → g < team.num_threads
      → (d : LoopData) × (kmp_next int32 int32 g team (task g) blank
          ≡ some (
            store_loop team k d,
            (static_answer l span i team.num_threads chunk seen g).0,
            (static_answer l span i team.num_threads chunk seen g).1,
          ))
        × Serving l span i k chunk task (g ∷ seen) (store_loop team k d)
  one_request {seen} {team} g f w lt = elim (Bool-cases (asked seen g)) [
    | inl old ↦ (
      w.loop,
      kmp_next-served g w w.loop blank false lt (again_request g blank w.at lt old)
          ∙ ap
              (λ (b : Bool).
                let a =
                  if b then (blank, false) else static_given l span i team.num_threads chunk g in
                some (store_loop team k w.loop, a.0, a.1))
              (sym old),
      stored-Serving g w w.loop (again-AtStatic g lt old w.at) w.static,
    )
    | inr new ↦
        (let block = block_args l span i team.num_threads g (pos i) in
          let d = after_first w.loop g block i in
          (
            d,
            kmp_next-served g w d block true lt (first_request g f w.at lt new)
                ∙ ap (λ r. some (store_loop team k d, (with_work r).0, (with_work r).1))
                    (sym (
                      for_static_init_4-block l span i team.num_threads g chunk false (pos i) f lt))
                ∙ ap
                    (λ (b : Bool).
                      let a =
                        if b
                        then (blank, false)
                        else static_given l span i team.num_threads chunk g in
                      some (store_loop team k d, a.0, a.1))
                    (sym new),
            stored-Serving g w d (after_first-AtStatic g block lt w.at) w.static,
          ))
  ]

  -- On every thread's latest loop, which has a static schedule, ascends and fits an `int` with one
  -- more round of the team, and on which the threads of `seen` have asked (`Serving`, `Fits`),
  -- requests by threads of the team in any order go through: the first request of a thread that is
  -- not in `seen` is answered with the block that `__kmpc_for_static_init_4` gives it, and every other
  -- one with no work.
  pub static_requests-blocks :
      {seen : List ℕ} {team : ParallelRegion} (gs : List ℕ)
      → Fits l span i team.num_threads
      → Serving l span i k chunk task seen team
      → All (λ g. g < team.num_threads) gs
      → (last : ParallelRegion) × (requests task team gs
          ≡ some (last, static_answers l span i team.num_threads chunk seen gs))
  unfolding requests
  static_requests-blocks {seen} {team} [] f w h = (team, refl)
  static_requests-blocks {seen} {team} (g ∷ gs) f w (h, hs) =
      let (d, e, w') = one_request g f w h in
      let same = store_loop-num_threads team k d in
      let (last, e') =
        static_requests-blocks {seen = g ∷ seen} {team = store_loop team k d} gs
          (subst (λ n. Fits l span i n) (sym same) f) w'
          (subst (λ n. All (λ j. j < n) gs) (sym same) hs) in
      (
        last,
        rw e (
            rw e' (
              ap
                (λ n. some (
                  last,
                  static_answer l span i team.num_threads chunk seen g
                      ∷ static_answers l span i n chunk (g ∷ seen) gs,
                ))
                same)),
      )
