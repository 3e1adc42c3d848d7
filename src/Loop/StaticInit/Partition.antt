-- ===== src/Loop/StaticInit/Partition.antt =====
-- Which iterations of an ascending loop of `int`s are in which block of `omp_static_init`.
use mathlib.Core.Option.{some-injective}
use native.Mathlib.Nat.{
  div-add-mod', mod-lt, div-lt_iff_lt-mul, lt-mul-div-succ, le-div_iff_mul-le, div-eq_of_lt-le,
}
use hpx_mp.Base.{
  ℕ, ◌+◌, ◌*◌, ◌/◌, ◌%◌, ◌≤◌, ◌<◌, ◌≡◌, sym, ◌∙◌, ap, subst, Bool, some, arith, ltb, if◌then◌else◌,
}
use hpx_mp.Base.Int.{ℤ, pos, ◌+ℤ◌, ◌≤ℤ◌}
use hpx_mp.Base.Int32.{+ℤ_cancel-pos, ≤ℤ-up, up-≤ℤ, +ℤ_assoc-pos}
use hpx_mp.Loop.Schedule.{kmp_sch_static}
use hpx_mp.Loop.StaticInit.{LoopArgs, for_static_init_4}
use hpx_mp.Loop.StaticInit.Exact.{
  Fits, rounds, ascending, block_start, block_end, block_args, for_static_init_4-block, mul_mono,
}

-- `for (v = lower; v <= upper; v += i)` comes to `v`.
abbrev pub Runs : LoopArgs → ℕ → ℤ → Type 0
Runs r i v = (k : ℕ) × (v ≡ r.lower +ℤ pos (k * i)) × (v ≤ℤ r.upper)

-- Thread `gtid` of the team comes to `v` in the block that it is given.
abbrev pub RunBy : ℤ → ℕ → ℕ → ℕ → ℤ → ℕ → ℤ → Type 0
RunBy l span i team chunk gtid v =
    (r : LoopArgs) × (for_static_init_4 team gtid kmp_sch_static (pos i) chunk
        (ascending l span Bool.false (pos 0))
      ≡ some r)
    × Runs r i v

pub cancel_mul : (a b i : ℕ) → 0 < i → a * i ≤ b * i → a ≤ b
cancel_mul a b i p h = grind arith

pub cancel_eq : (a b i : ℕ) → 0 < i → a * i ≡ b * i → a ≡ b
cancel_eq a b i p h = omega (arith, cancel_mul a b i p, cancel_mul b a i p)

under_both : (a b x : ℕ) → x ≤ (if ltb a b then a else b) → (x ≤ a) × (x ≤ b)
under_both a b x h = ground arith

under_clamp : (a b x : ℕ) → x ≤ a → x ≤ b → x ≤ (if ltb a b then a else b)
under_clamp a b x p q = ground arith

module _ {l : ℤ} {span i team : ℕ} (chunk : ℤ) (f : Fits l span i team) where
  abbrev size : ℕ
  size = rounds span i team + 1

  start_steps : (gtid k : ℕ) → block_start span i team gtid + k * i ≡ (gtid * size + k) * i
  start_steps gtid k = omega arith

  -- The values of a block, counted in steps from the lower bound.
  run_of_block :
      (gtid : ℕ) {v : ℤ}
      → Runs (block_args l span i team gtid (pos 0)) i v
      → (k : ℕ) × (k < size)
        × ((gtid * size + k) * i ≤ span)
        × (v ≡ l +ℤ pos ((gtid * size + k) * i))
  run_of_block gtid {v} (k, at, below) =
      let here : v ≡ l +ℤ pos (block_start span i team gtid + k * i) =
        at ∙ +ℤ_assoc-pos l (block_start span i team gtid) (k * i) in
      let under : (block_start span i team gtid + k * i ≤ span)
          × (block_start span i team gtid + k * i ≤ block_end span i team gtid) =
        under_both span (block_end span i team gtid) (block_start span i team gtid + k * i) (
          ≤ℤ-up l _ _
            (subst (λ w. w ≤ℤ (block_args l span i team gtid (pos 0)).upper) here below)) in
      let few : k ≤ rounds span i team = cancel_mul k (rounds span i team) i f.step (omega arith) in
      (k, omega arith, omega (arith, start_steps gtid k), rw (← start_steps gtid k) here)

  pub run_index :
      {gtid : ℕ} {v : ℤ}
      → gtid < team
      → RunBy l span i team chunk gtid v
      → (k : ℕ) × (k < size)
        × ((gtid * size + k) * i ≤ span)
        × (v ≡ l +ℤ pos ((gtid * size + k) * i))
  run_index {gtid} {v} g (r, e, runs) = run_of_block gtid (
      subst (λ q. Runs q i v)
        (some-injective _ _
          (sym e ∙ for_static_init_4-block l span i team gtid chunk Bool.false (pos 0) f g))
        runs)

  pub quotient : (gtid k : ℕ) → k < size → (gtid * size + k) / size ≡ gtid
  quotient gtid k h = div-eq_of_lt-le size (omega arith) (omega arith)

  -- Of a loop that fits (`Fits`), every value between the bounds that the loop comes to is run by a
  -- thread of the team.
  pub static_block-covers :
      (m : ℕ)
      → m * i ≤ span
      → (gtid : ℕ) × (gtid < team) × RunBy l span i team chunk gtid (l +ℤ pos (m * i))
  static_block-covers m h = (
    m / size,
    g,
    (
      block_args l span i team (m / size) (pos 0),
      for_static_init_4-block l span i team (m / size) chunk Bool.false (pos 0) f g,
      (
        m % size,
        sym (
            +ℤ_assoc-pos l _ _
            ∙ ap (λ n. l +ℤ pos n)
                (start_steps (m / size) (m % size) ∙ ap (λ n. n * i) (div-add-mod' m size))),
        up-≤ℤ l _ _ (under_clamp _ _ _ h ends),
      ),
    ),
  )
    where
      g : m / size < team
      g = (div-lt_iff_lt-mul {k = size} (omega arith)).1 (
          omega (
            arith,
            lt-mul-div-succ (span / i) {b = team} f.threads,
            (le-div_iff_mul-le {k = i} {x = m} {y = span} f.step).1 h,
          ))

      ends : m * i ≤ block_end span i team (m / size)
      ends = omega (
        arith,
        ap (λ n. n * i) (div-add-mod' m size),
        mul_mono (m % size) (rounds span i team) i
            (omega (arith, mod-lt m {m = size} (omega arith))),
      )

  -- Of a loop that fits (`Fits`), no value is run by two threads of the team, and each value that
  -- one runs is a value of the loop.
  pub static_block-disjoint :
      {g h : ℕ} {v : ℤ}
      → g < team
      → h < team
      → RunBy l span i team chunk g v
      → RunBy l span i team chunk h v
      → (g ≡ h) × ((m : ℕ) × (m * i ≤ span) × (v ≡ l +ℤ pos (m * i)))
  static_block-disjoint {g} {h} {v} gt ht rg rh =
      let (k, small, inside, at) = run_index gt rg in
      let (k', small', inside', at') = run_index ht rh in
      let same : g * size + k ≡ h * size + k' =
        cancel_eq _ _ i f.step (+ℤ_cancel-pos l _ _ (sym at ∙ at')) in
      (
        sym (quotient g k small) ∙ ap (λ n. n / size) same ∙ quotient h k' small',
        (g * size + k, inside, at),
      )
