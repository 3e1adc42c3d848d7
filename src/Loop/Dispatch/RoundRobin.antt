-- ===== src/Loop/Dispatch/RoundRobin.antt =====
-- How the requests on a loop with a static chunked schedule share out its iterations.
use native.Mathlib.Nat.{
  div-add-mod', add-mul-mod_self_left, add-mul-div_left, div-eq_of_lt, mod-eq_of_lt,
}
use mathlib.Core.Option.{some-injective}
use hpx_mp.Base.{
  ℕ, zero, suc, ◌+◌, ◌-◌, ◌*◌, ◌/◌, ◌%◌, ◌≤◌, ◌<◌, ◌≡◌, ◌≢◌, refl, sym, ◌∙◌, ap, subst, ◌↔◌, ◌⊎◌,
  inl, inr, Bool, true, false, some, List, [], ◌∷◌, arith, ◌==◌, ltb, if◌then◌else◌, get_elem?, All,
  ℕ_discrete,
}
use hpx_mp.Base.Int.{ℤ, pos, ◌+ℤ◌, ◌≤ℤ◌}
use hpx_mp.Loop.StaticInit.{LoopArgs}
use hpx_mp.Loop.Dispatch.Dynamic.{chunk_args, has_chunk}
use hpx_mp.Loop.Dispatch.Share.{Works, chunk_runs}
use hpx_mp.Loop.Dispatch.Requests.{requests}
use hpx_mp.Loop.Dispatch.Chunked.{FitsRounds, times, chunk_from, offset}
use hpx_mp.Loop.Dispatch.Rounds.{Serving, chunked_answers, chunked_requests-chunks, times-shift}
use hpx_mp.Team.{ParallelRegion, OmpTaskData}

-- How many of the first `q` requests of a list are the thread's.
abbrev pub earlier : List ℕ → ℕ → ℕ → ℕ
earlier [] q g = 0
earlier (h ∷ gs) zero g = 0
earlier (h ∷ gs) (suc q) g = if h == g then suc (earlier gs q g) else earlier gs q g

nth-answer :
    (l : ℤ) (span s c team : ℕ) (seen gs : List ℕ) (q g : ℕ)
    → get_elem? gs q ≡ some g
    → get_elem? (chunked_answers l span s c team seen gs) q
      ≡ some (chunk_from l span s c (offset s c team g (times seen g + earlier gs q g)))
nth-answer l span s c team seen [] q g e = ground arith
nth-answer l span s c team seen (h ∷ gs) zero g e = ground (arith, some-injective h g e)
nth-answer l span s c team seen (h ∷ gs) (suc q) g e =
    nth-answer l span s c team (h ∷ seen) gs q g e
    ∙ ap (λ r. some (chunk_from l span s c (offset s c team g r)))
        (ground (arith, times-shift seen gs h g))

begins :
    (span o past under : ℕ)
    → (if ltb span o then false else true) ≡ true
    → (if ltb span o then past else under) ≡ under
begins span o past under work = ground arith

offset-one : (c team g r : ℕ) → offset 1 c team g r ≡ (g + team * r) * 1 * c
offset-one c team g r = omega arith

ends-one :
    (c team g r : ℕ) → offset 1 c team g r + 1 * (c - 1) ≡ (g + team * r) * 1 * c + (c - 1) * 1
ends-one c team g r = omega arith

-- A chunk from `o` up to `e`, cut at the end of the loop.
abbrev cut : ℤ → ℕ → ℕ → ℕ → LoopArgs × Bool
cut l span o e = (
  record {
    last_iter = false;
    lower = l +ℤ pos o;
    upper = l +ℤ pos (if ltb span e then span else e);
    stride = pos 1;
  },
  if ltb span o then false else true,
)

-- With stride 1 the chunk is the one of number `g + team * r`.
chunk_from-Works :
    (l : ℤ) (span c team g r : ℕ) (v : ℤ)
    → (let q = g + team * r in
        Works (chunk_from l span 1 c (offset 1 c team g r)) 1 v
        ↔ Works (chunk_args l span 1 c q, has_chunk span 1 c q) 1 v)
chunk_from-Works l span c team g r v =
    let q = g + team * r in
    let o = q * 1 * c in
    let e = o + (c - 1) * 1 in
    let same : Works (cut l span o e) 1 v
        ≡ Works (chunk_from l span 1 c (offset 1 c team g r)) 1 v =
      ap (λ (x : ℕ × ℕ). Works (cut l span x.0 x.1) 1 v)
        (λ t. (sym (offset-one c team g r) t, sym (ends-one c team g r) t)) in
    let top : (work : has_chunk span 1 c q ≡ true)
        → (if ltb span o then e else if ltb span e then span else e)
          ≡ (if ltb span e then span else e) =
      begins span o e (if ltb span e then span else e) in
    subst (λ w. w ↔ Works (chunk_args l span 1 c q, has_chunk span 1 c q) 1 v) same
      (
        λ (work, (k, at, under)).
            (work, (k, at, subst (λ u. v ≤ℤ l +ℤ pos u) (sym (top work)) under)),
        λ (work, (k, at, under)). (work, (k, at, subst (λ u. v ≤ℤ l +ℤ pos u) (top work) under)),
      )

round_robin : (team g r n : ℕ) → g < team → (g + team * r ≡ n) ↔ ((g ≡ n % team) × (r ≡ n / team))
round_robin team g r n lt = (
  λ e. (
    sym (ap (λ m. m % team) (sym e) ∙ add-mul-mod_self_left g team r ∙ mod-eq_of_lt lt),
    sym (
        ap (λ m. m / team) (sym e)
        ∙ add-mul-div_left g r (omega arith)
        ∙ omega (arith, div-eq_of_lt lt)),
  ),
  λ (e, k). rw (e, k) (omega (arith, div-add-mod' n team)),
)

runs_one :
    (l : ℤ) (span c team g r m : ℕ)
    → 0 < c
    → m * 1 ≤ span
    → g < team
    → Works (chunk_from l span 1 c (offset 1 c team g r)) 1 (l +ℤ pos (m * 1))
      ↔ ((g ≡ m / c % team) × (r ≡ m / c / team))
runs_one l span c team g r m p inside lt =
    let same = chunk_from-Works l span c team g r (l +ℤ pos (m * 1)) in
    let runs = chunk_runs l span (omega arith) p (g + team * r) m inside in
    let robin = round_robin team g r (m / c) lt in
    (λ w. robin.0 (runs.0 (same.0 w)), λ e. same.1 (runs.1 (robin.1 e)))

-- On every thread's latest loop, on which nobody has asked yet and which has a static chunked
-- schedule, ascends and fits an `int` for `n` requests of each thread (`Serving`, `FitsRounds`),
-- requests by threads of the team in any order, at most `n` by each, go through. Where request
-- number `q`, counted from 0, is the one of thread `g` after `r` earlier ones, its chunk begins
-- `c * (g + team * s * r)` above the lower bound, for the chunk `c`, the stride `s` and the size
-- `team` of the team; and with stride 1 it runs iteration `m` exactly where `g` is the number
-- `m / c` of the chunk of `m` modulo the size of the team, and `r` that number divided by it.
pub chunked_requests-share_out :
    {l : ℤ} {span s c k n : ℕ} {task : ℕ → OmpTaskData} {team : ParallelRegion} (gs : List ℕ)
    (m q g : ℕ)
    → FitsRounds l span s c team.num_threads n
    → Serving l span s c k task [] team
    → All (λ h. h < team.num_threads) gs
    → ((h : ℕ) → times gs h ≤ n)
    → g < team.num_threads
    → get_elem? gs q ≡ some g
    → m * s ≤ span
    → (last : ParallelRegion) × (outs : List (LoopArgs × Bool)) × (out : LoopArgs × Bool)
      × (requests task team gs ≡ some (last, outs))
      × (get_elem? outs q ≡ some out)
      × (out.0.lower ≡ l +ℤ pos (c * (g + team.num_threads * s * earlier gs q g)))
      × ((s ≢ 1)
          ⊎ (Works out s (l +ℤ pos (m * s))
              ↔ ((g ≡ m / c % team.num_threads) × (earlier gs q g ≡ m / c / team.num_threads))))
chunked_requests-share_out {l} {span} {s} {c} {k} {n} {task} {team} gs m q g f w h few lt at
      inside =
    let (last, e) = chunked_requests-chunks gs f w h (λ j. omega (arith, few j)) in
    let r = earlier gs q g in
    let size = team.num_threads in
    (
      last,
      chunked_answers l span s c size [] gs,
      chunk_from l span s c (offset s c size g r),
      e,
      nth-answer l span s c size [] gs q g at
          ∙ ap (λ j. some (chunk_from l span s c (offset s c size g j))) (omega arith),
      refl,
      elim (ℕ_discrete s 1) [
        | yes one ↦ inr (
            subst
              (λ t.
                m * t ≤ span
                → Works (chunk_from l span t c (offset t c size g r)) t (l +ℤ pos (m * t))
                  ↔ ((g ≡ m / c % size) × (r ≡ m / c / size)))
              (sym one) (λ i. runs_one l span c size g r m f.chunks i lt) inside)
        | no other ↦ inl other
      ],
    )
