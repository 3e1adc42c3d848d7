-- ===== src/Loop/Dispatch/Share.antt =====
-- How the requests on one dynamically scheduled loop share out its iterations.
use mathlib.Core.Option.{some-injective}
use native.Mathlib.Nat.{div-add-mod', div-eq_of_lt-le, mod-lt, div-mul-le_self, le-div_iff_mul-le}
use hpx_mp.Base.{
  ◌≢◌, ◌⊎◌, inl, inr, ℕ_discrete, ℕ, zero, suc, ◌+◌, ◌-◌, ◌*◌, ◌/◌, ◌%◌, ◌≤◌, ◌<◌, ◌≡◌, sym, ◌∙◌,
  ap, subst, ◌↔◌, Bool, true, false, some, List, [], ◌∷◌, arith, ltb, if◌then◌else◌, length,
  get_elem?, All,
}
use hpx_mp.Base.Int.{ℤ, pos, ◌+ℤ◌}
use hpx_mp.Base.Int32.{+ℤ_cancel-pos, ≤ℤ-up, up-≤ℤ, +ℤ_assoc-pos}
use hpx_mp.Loop.StaticInit.{LoopArgs}
use hpx_mp.Loop.StaticInit.Exact.{mul_mono, pred_mul}
use hpx_mp.Loop.StaticInit.Partition.{Runs, cancel_eq, cancel_mul}
use hpx_mp.Loop.Dispatch.Dynamic.{Fits, chunk_args, has_chunk}
use hpx_mp.Loop.Dispatch.Requests.{requests, Serving, chunks, requests-chunks}
use hpx_mp.Team.{ParallelRegion, OmpTaskData}

-- A request that is answered with work runs `v`.
abbrev pub Works : LoopArgs × Bool → ℕ → ℤ → Type 0
Works (args, work) s v = (work ≡ true) × Runs args s v

nth-chunks :
    (l : ℤ) (span s c n : ℕ) (gs : List ℕ) (q r : ℕ)
    → q < length gs
    → n + q ≡ r
    → get_elem? (chunks l span s c n gs) q ≡ some (chunk_args l span s c r, has_chunk span s c r)
nth-chunks l span s c n [] q r h e = elim h [ ]
nth-chunks l span s c n (g ∷ gs) zero r h e = let e' : n ≡ r = omega arith in rw e'
nth-chunks l span s c n (g ∷ gs) (suc q) r h e =
    nth-chunks l span s c (n + 1) gs q r (omega arith) (omega arith)

in_chunk :
    (span s c q x : ℕ)
    → has_chunk span s c q ≡ true
    → x ≤ (
        if ltb span (q * s * c)
        then q * s * c + (c - 1) * s
        else if ltb span (q * s * c + (c - 1) * s)
        then span
        else q * s * c + (c - 1) * s)
    → (x ≤ span) × (x ≤ q * s * c + (c - 1) * s)
in_chunk span s c q x h le = ground arith

into_chunk :
    (span s c q x : ℕ)
    → q * s * c ≤ span
    → x ≤ span
    → x ≤ q * s * c + (c - 1) * s
    → (has_chunk span s c q ≡ true)
      × (x ≤ (
          if ltb span (q * s * c)
          then q * s * c + (c - 1) * s
          else if ltb span (q * s * c + (c - 1) * s)
          then span
          else q * s * c + (c - 1) * s))
into_chunk span s c q x p h k = ground arith

place : (s c q k : ℕ) → q * s * c + k * s ≡ (q * c + k) * s
place s c q k = omega arith

lt_of_mul : (a b i : ℕ) → a * i < b * i → a < b
lt_of_mul a b i h = grind arith

module _ (l : ℤ) (span : ℕ) {s c : ℕ} (p : 0 < s) (pc : 0 < c) where
  pub chunk_runs :
      (q m : ℕ)
      → m * s ≤ span
      → Works (chunk_args l span s c q, has_chunk span s c q) s (l +ℤ pos (m * s)) ↔ (q ≡ m / c)
  chunk_runs q m h = (
    λ (work, (k, at, under)).
        let here : m * s ≡ q * s * c + k * s =
          +ℤ_cancel-pos l _ _ (at ∙ +ℤ_assoc-pos l (q * s * c) (k * s)) in
        let inside = in_chunk span s c q (m * s) work (≤ℤ-up l _ _ under) in
        let short : k ≤ c - 1 = cancel_mul k (c - 1) s p (omega (arith, here, inside)) in
        let same : m ≡ q * c + k = cancel_eq m (q * c + k) s p (here ∙ place s c q k) in
        sym (div-eq_of_lt-le c (omega (arith, same)) (omega (arith, same, short))),
    λ e.
        let same : q * c + m % c ≡ m = ap (λ t. t * c + m % c) e ∙ div-add-mod' m c in
        let whole : q * s * c + m % c * s ≡ m * s = place s c q (m % c) ∙ ap (λ t. t * s) same in
        let last : m % c * s ≤ (c - 1) * s =
          mul_mono (m % c) (c - 1) s (omega (arith, mod-lt m pc)) in
        let (work, under) =
          into_chunk span s c q (m * s) (omega (arith, whole)) h (omega (arith, whole, last)) in
        (
          work,
          (
            m % c,
            sym (+ℤ_assoc-pos l (q * s * c) (m % c * s) ∙ ap (λ t. l +ℤ pos t) whole),
            up-≤ℤ l _ _ under,
          ),
        ),
  )

-- The answer to a request is the chunk of its number.
nth_out :
    {l : ℤ} {span s c i : ℕ} {task : ℕ → OmpTaskData} {team last : ParallelRegion}
    {outs : List (LoopArgs × Bool)} {out : LoopArgs × Bool} (gs : List ℕ) (q : ℕ)
    → Fits l span s c (length gs)
    → Serving l span s c 0 i task team
    → All (λ g. g < team.num_threads) gs
    → requests task team gs ≡ some (last, outs)
    → get_elem? outs q ≡ some out
    → q < length gs
    → ◌≡◌ {A = LoopArgs × Bool} (chunk_args l span s c q, has_chunk span s c q) out
nth_out {l} {span} {s} {c} {outs = outs} {out = out} gs q f w h e at few =
    let (_, e') = requests-chunks gs f (omega arith) w h in
    let same : chunks l span s c 0 gs ≡ outs = ap (λ r. r.1) (some-injective _ _ (sym e' ∙ e)) in
    some-injective _ _
      (sym (nth-chunks l span s c 0 gs q q few (omega arith)) ∙ ap (λ os. get_elem? os q) same ∙ at)

-- On a new loop with a dynamic schedule that fits for the requests made (`Fits`, `Serving`), the
-- iteration `m` is run by the request number `m / c`, and by no other, in
-- whatever order the threads of the team make their requests.
request_runs :
    {l : ℤ} {span s c i : ℕ} {task : ℕ → OmpTaskData} {team last : ParallelRegion}
    {outs : List (LoopArgs × Bool)} {out : LoopArgs × Bool} (gs : List ℕ) (m q : ℕ)
    → Fits l span s c (length gs)
    → Serving l span s c 0 i task team
    → All (λ g. g < team.num_threads) gs
    → requests task team gs ≡ some (last, outs)
    → get_elem? outs q ≡ some out
    → q < length gs
    → m * s ≤ span
    → Works out s (l +ℤ pos (m * s)) ↔ (q ≡ m / c)
request_runs {l} {span} {s} {c} {outs = outs} {out = out} gs m q f w h e at few inside =
    subst (λ o. Works o s (l +ℤ pos (m * s)) ↔ (q ≡ m / c)) (nth_out gs q f w h e at few)
      (chunk_runs l span f.step f.chunks q m inside)

-- A chunk that begins within the loop ends within it.
full_chunk :
    (span s c q : ℕ)
    → 0 < s
    → 0 < c
    → (span / s + 1) % c ≡ 0
    → q * s * c ≤ span
    → q * s * c + (c - 1) * s ≤ span
full_chunk span s c q p pc full begins =
    let reach : q * c ≤ span / s =
      (le-div_iff_mul-le {k = s} {x = q * c} {y = span} p).1 (omega arith) in
    let whole : (span / s + 1) / c * c ≡ span / s + 1 =
      omega (arith, div-add-mod' (span / s + 1) c) in
    let before : q < (span / s + 1) / c =
      lt_of_mul q ((span / s + 1) / c) c (omega (arith, whole, reach)) in
    let ends : q * c + c ≤ span / s + 1 =
      omega (arith, whole, mul_mono (q + 1) ((span / s + 1) / c) c (omega arith)) in
    omega (
      arith,
      pred_mul c s pc,
      div-mul-le_self span s,
      mul_mono (q * c + (c - 1)) (span / s) s (omega arith),
    )

last_of_chunk :
    (span s c q : ℕ)
    → 0 < s
    → 0 < c
    → (span / s + 1) % c ≡ 0
    → (if ltb span (q * s * c) then false else ltb span (q * s * c + (c - 1) * s)) ≡ false
last_of_chunk span s c q p pc full = ground (arith, full_chunk span s c q p pc full)

-- On a new loop with a dynamic schedule that fits for the requests made (`Fits`, `Serving`), where
-- the number of iterations is a multiple of the chunk, no request is told that it has the last
-- iteration.
last_iter-full :
    {l : ℤ} {span s c i : ℕ} {task : ℕ → OmpTaskData} {team last : ParallelRegion}
    {outs : List (LoopArgs × Bool)} {args : LoopArgs} {work : Bool} (gs : List ℕ) (q : ℕ)
    → Fits l span s c (length gs)
    → Serving l span s c 0 i task team
    → All (λ g. g < team.num_threads) gs
    → requests task team gs ≡ some (last, outs)
    → get_elem? outs q ≡ some (args, work)
    → q < length gs
    → (span / s + 1) % c ≡ 0
    → args.last_iter ≡ false
last_iter-full {l} {span} {s} {c} {outs = outs} {args = args} {work = work} gs q f w h e at few
      full =
    ap (λ (o : LoopArgs × Bool). o.0.last_iter) (sym (nth_out gs q f w h e at few))
    ∙ last_of_chunk span s c q f.step f.chunks full

-- On a new loop with a dynamic schedule that fits for the requests made (`Fits`, `Serving`),
-- requests by threads of the team in any order go through, and request number q, counted from 0,
-- runs iteration m exactly where q is m / c; where the chunk divides the number of iterations, it is
-- not told that it has the last one.
pub requests_share_out :
    {l : ℤ} {span s c i : ℕ} {task : ℕ → OmpTaskData} {team : ParallelRegion} (gs : List ℕ)
    (m q : ℕ)
    → Fits l span s c (length gs)
    → Serving l span s c 0 i task team
    → All (λ g. g < team.num_threads) gs
    → q < length gs
    → m * s ≤ span
    → (last : ParallelRegion) × (outs : List (LoopArgs × Bool)) × (out : LoopArgs × Bool)
      × (requests task team gs ≡ some (last, outs))
      × (get_elem? outs q ≡ some out)
      × (Works out s (l +ℤ pos (m * s)) ↔ (q ≡ m / c))
      × (((span / s + 1) % c ≢ 0) ⊎ (out.0.last_iter ≡ false))
requests_share_out {l} {span} {s} {c} gs m q f w h few inside =
    let (last, e) = requests-chunks gs f (omega arith) w h in
    let at = nth-chunks l span s c 0 gs q q few (omega arith) in
    (
      last,
      chunks l span s c 0 gs,
      (chunk_args l span s c q, has_chunk span s c q),
      e,
      at,
      request_runs gs m q f w h e at few inside,
      elim (ℕ_discrete ((span / s + 1) % c) 0) [
        | yes full ↦ inr (last_iter-full gs q f w h e at few full)
        | no rest ↦ inl rest
      ],
    )
