-- ===== src/Team/Reduce/End.antt =====
-- The rest of a reduction in src/intel_hpxMP.cpp: `__kmpc_reduce_nowait`, `__kmpc_end_reduce` and
-- `__kmpc_end_reduce_nowait`, and how often a thread comes to the barrier of the team in it.
use mathlib.Core.Option.{some-injective}
use hpx_mp.Base.{
  ℕ, ◌+◌, ◌≡◌, sym, ◌∙◌, ap, arith, Bool, true, false, if◌then◌else◌, Option, some, List,
}
use hpx_mp.Team.{ParallelRegion, OmpTaskData}
use hpx_mp.Team.Reduce.Whole.{kmpc_reduce}

unfoldable pub kmpc_reduce_nowait :
    (ℕ → ℕ → ℕ)
    → Bool
    → (ℕ → ℕ)
    → ParallelRegion
    → (ℕ → OmpTaskData)
    → List ℕ
    → (ℕ → ℕ)
    → Option ((ℕ → ℕ) × (ℕ → ℕ))
unfolding kmpc_reduce
kmpc_reduce_nowait func atomic_avail address team task order store =
    kmpc_reduce func atomic_avail address team task order store

-- The calls of `barrier_wait` in `__kmpc_reduce`.
unfoldable pub reduce_waits : Bool → ℕ
reduce_waits atomic_avail = if atomic_avail then 1 else 2

-- `__kmpc_end_reduce`, of which the calls of `barrier_wait` are all that it does.
unfoldable pub kmpc_end_reduce : Bool → ℕ
kmpc_end_reduce atomic_avail = if atomic_avail then 1 else 0

unfoldable pub kmpc_end_reduce_nowait : Bool → ℕ
unfolding kmpc_end_reduce
kmpc_end_reduce_nowait atomic_avail = kmpc_end_reduce atomic_avail

-- `calls_end` is where the compiler calls `__kmpc_end_reduce`, by what `__kmpc_reduce` has returned.
unfoldable pub waits : (ℕ → Bool) → Bool → ℕ → ℕ
unfolding reduce_waits kmpc_end_reduce
waits calls_end atomic_avail returned =
    reduce_waits atomic_avail + (if calls_end returned then kmpc_end_reduce atomic_avail else 0)

-- In a reduction that goes through, all threads come to the barrier equally often, wherever the
-- compiler calls the end.
waits-same :
    (calls_end : ℕ → Bool) (atomic_avail : Bool) (func : ℕ → ℕ → ℕ) (address : ℕ → ℕ)
    (team : ParallelRegion) (task : ℕ → OmpTaskData) (order : List ℕ)
    (store store' returned : ℕ → ℕ) (i j : ℕ)
    → kmpc_reduce_nowait func atomic_avail address team task order store ≡ some (returned, store')
    → waits calls_end atomic_avail (returned i) ≡ waits calls_end atomic_avail (returned j)
unfolding waits reduce_waits kmpc_end_reduce kmpc_reduce_nowait kmpc_reduce
waits-same calls_end true func address team task order store store' returned i j e =
    let two : (k : ℕ) → 2 ≡ returned k = λ k.
      ap (λ (r : (ℕ → ℕ) × (ℕ → ℕ)). r.0 k) (some-injective (λ m. 2, store) (returned, store') e) in
    ap (waits calls_end true) (sym (two i) ∙ two j)
waits-same calls_end false func address team task order store store' returned i j e = ground arith
