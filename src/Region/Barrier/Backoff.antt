-- ===== src/Region/Barrier/Backoff.antt =====
-- How long the waiting loops of src/hpx_runtime.cpp pause between two tests: in `barrier_wait`, and in
-- `thread_setup` and `fork_worker`.
use native.Mathlib.Nat.{pow-le-pow_right, two-pow-succ}
use hpx_mp.Base.{
  subst, sym, dec_lt, ℕ_discrete, ℕ, zero, suc, ◌*◌, ◌^◌, ◌≤◌, ◌<◌, ◌≡◌, refl, ◌∙◌, ap, Option,
  none, some, arith, ◌==◌, ltb, if◌then◌else◌,
}
use hpx_mp.Base.Int.{ℤ, pos, int32, add, mul, min_value, ltb_ℤ, eqb_ℤ, arithmetic}
use hpx_mp.Base.Int32.{mul-pos, add-pos}

-- `count` in `barrier_wait` after so many rounds.
unfoldable pub barrier_count : ℕ → ℤ
barrier_count zero = pos 1
barrier_count (suc k) = mul int32 (barrier_count k) (pos 2)

-- The pause of a round in microseconds; `none` is `hpx::this_thread::yield`.
unfoldable pub barrier_pause : ℤ → Option ℤ
barrier_pause count =
    if eqb_ℤ count (pos 1)
    then none
    else some (if ltb_ℤ (pos 100000) count then pos 100000 else count)

-- `count` in `thread_setup` and `fork_worker` after so many rounds, and the pause in milliseconds.
unfoldable pub worker_count : ℕ → ℤ
worker_count zero = pos 0
worker_count (suc k) = add int32 (worker_count k) (pos 1)

unfoldable pub worker_pause : ℤ → Option ℤ
worker_pause count =
    let sleep_time = mul int32 (pos 10) count in
    if eqb_ℤ count (pos 0)
    then none
    else some (if ltb_ℤ (pos 10) count then mul int32 (pos 10) (pos 10) else sleep_time)

barrier_count-pow : (k : ℕ) → k < 31 → barrier_count k ≡ pos (2 ^ k)
unfolding barrier_count
barrier_count-pow zero h = refl
barrier_count-pow (suc k) h =
    ap (λ c. mul int32 c (pos 2)) (barrier_count-pow k (omega arith))
    ∙ mul-pos (2 ^ k) 2
        (omega (arith, pow-le-pow_right {n = 2} (omega arith) {i = k} {j = 29} (omega arith)))
    ∙ ap pos (omega (arith, two-pow-succ k))

-- After 31 rounds `count` has become the least `int`, after 32 it is 0, and stays so.
barrier_count-wrapped : (k : ℕ) → 32 ≤ k → barrier_count k ≡ pos 0
unfolding barrier_count arithmetic
barrier_count-wrapped zero h = absurd (omega arith)
barrier_count-wrapped (suc k) h = elim (ℕ_discrete k 31) [
  | yes e ↦ subst (λ j. barrier_count (suc j) ≡ pos 0) (sym e) refl
  | no ne ↦ ap (λ c. mul int32 c (pos 2)) (barrier_count-wrapped k (omega arith))
]

worker_count-pos : (k : ℕ) → k < 2 ^ 31 → worker_count k ≡ pos k
unfolding worker_count
worker_count-pos zero h = refl
worker_count-pos (suc k) h =
    ap (λ c. add int32 c (pos 1)) (worker_count-pos k (omega arith))
    ∙ add-pos k 1 (omega arith)
    ∙ ap pos (omega arith)

-- What the loops mean to do, in numbers without a bound, and what the first one does from round 31 on.
abbrev pub barrier_schedule : ℕ → Option ℤ
barrier_schedule k =
    if k == 0
    then none
    else some (
        if ltb k 17
        then pos (2 ^ k)
        else if ltb k 31
        then pos 100000
        else if k == 31
        then min_value int32
        else pos 0)

abbrev pub worker_schedule : ℕ → Option ℤ
worker_schedule k = if k == 0 then none else some (pos (if ltb 10 k then 100 else 10 * k))

early : (k : ℕ) → 0 < k → k < 17 → barrier_pause (pos (2 ^ k)) ≡ some (pos (2 ^ k))
unfolding barrier_pause
early k lo hi =
    let a = pow-le-pow_right {n = 2} (omega arith) {i = 1} {j = k} lo in
    let b = pow-le-pow_right {n = 2} (omega arith) {i = k} {j = 16} (omega arith) in
    ground (arith, a, b)

later : (k : ℕ) → 17 ≤ k → barrier_pause (pos (2 ^ k)) ≡ some (pos 100000)
unfolding barrier_pause
later k lo = let a = pow-le-pow_right {n = 2} (omega arith) {i = 17} {j = k} lo in ground (arith, a)

barrier_pause-schedule : (k : ℕ) → barrier_pause (barrier_count k) ≡ barrier_schedule k
unfolding barrier_pause barrier_count arithmetic
barrier_pause-schedule k = elim (dec_lt k 31) [
  | yes small ↦ rw (barrier_count-pow k small) (elim (dec_lt k 17) [
    | yes tiny ↦ elim (ℕ_discrete k 0) [
      | yes e ↦ subst (λ j. barrier_pause (pos (2 ^ j)) ≡ barrier_schedule j) (sym e) refl
      | no ne ↦ early k (omega arith) tiny ∙ ground arith
    ]
    | no more ↦ later k (omega arith) ∙ ground arith
  ])
  | no large ↦ elim (ℕ_discrete k 31) [
    | yes e ↦ subst (λ j. barrier_pause (barrier_count j) ≡ barrier_schedule j) (sym e) refl
    | no ne ↦ rw (barrier_count-wrapped k (omega arith)) (ground arith)
  ]
]

worker_pause-schedule : (k : ℕ) → k < 2 ^ 31 → worker_pause (worker_count k) ≡ worker_schedule k
unfolding worker_pause
worker_pause-schedule k h = rw (worker_count-pos k h) (ground (arith, mul-pos 10 10, mul-pos 10 k))

-- In its round k, counted from 0, a loop of `thread_setup` or `fork_worker` that has made fewer than
-- 2^31 rounds yields where k is 0 and else sleeps for 10 k milliseconds and at most 100; the loop of
-- `barrier_wait` yields in round 0 and sleeps for 2^k microseconds up to round 16, for 100000 up to
-- round 30, for the least `int` in round 31, and for 0 in every later round.
waits-schedule :
    (k : ℕ)
    → k < 2 ^ 31
    → (barrier_pause (barrier_count k) ≡ barrier_schedule k)
      × (worker_pause (worker_count k) ≡ worker_schedule k)
waits-schedule k h = (barrier_pause-schedule k, worker_pause-schedule k h)
