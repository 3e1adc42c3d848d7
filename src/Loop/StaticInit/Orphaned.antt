-- ===== src/Loop/StaticInit/Orphaned.antt =====
-- A loop in a function that a region calls: its threads pass `__kmpc_global_thread_num` to
-- `__kmpc_for_static_init_4`.
use hpx_mp.Base.{
  ℕ, ◌*◌, ◌≤◌, ◌<◌, ◌≡◌, refl, sym, ◌∙◌, ap, ◌⊎◌, inl, inr, ◌↔◌, arith, dec_lt, subst,
}
use hpx_mp.Base.Int.{ℤ, pos, ◌+ℤ◌}
use hpx_mp.Base.Int32.{+ℤ_cancel-pos}
use hpx_mp.Loop.StaticInit.Exact.{Fits}
use hpx_mp.Loop.StaticInit.Partition.{RunBy, cancel_eq}
use hpx_mp.Loop.StaticInit.Owner.{FallsTo, block_owner, static_block-owner}
use hpx_mp.Team.Number.{global_thread_num, kmpc_master}

module _ (get_worker_thread_num : ℕ → ℕ) (workers : ℕ) {l : ℤ} {span i team : ℕ} (chunk : ℤ)
    (f : Fits l span i team) (on_workers : (j : ℕ) → get_worker_thread_num j < workers) where
  -- A thread of the team runs the iteration.
  abbrev pub IsRun : ℤ → Type 0
  IsRun v =
      (j : ℕ) × (j < team) × RunBy l span i team chunk (global_thread_num get_worker_thread_num j) v

  abbrev pub OnWorker : ℕ → Type 0
  OnWorker w = (j : ℕ) × (j < team) × (get_worker_thread_num j ≡ w)

  -- The number of the iteration is that of its index.
  falls_here :
      (m h : ℕ)
      → FallsTo (block_owner span i team) l span i h (l +ℤ pos (m * i))
      → block_owner span i team m ≡ h
  falls_here m h (m', le, at, same) =
      ap (block_owner span i team) (cancel_eq m m' i f.step (+ℤ_cancel-pos l _ _ at)) ∙ same

  iteration-IsRun :
      (m : ℕ)
      → m * i ≤ span
      → workers ≤ team
      → IsRun (l +ℤ pos (m * i)) ↔ OnWorker (block_owner span i team m)
  unfolding global_thread_num
  iteration-IsRun m le few = (
    λ (j, lt, run).
        let owns =
          static_block-owner chunk f m (get_worker_thread_num j) (l +ℤ pos (m * i)) le
            (omega (arith, on_workers j, few)) in
        (j, lt, sym (falls_here m (get_worker_thread_num j) (owns.1.0 run))),
    λ (j, lt, on).
        let owns =
          static_block-owner chunk f m (get_worker_thread_num j) (l +ℤ pos (m * i)) le
            (omega (arith, on_workers j, few)) in
        (j, lt, owns.1.1 (m, le, refl, sym on)),
  )

  -- In a team of at least as many threads as HPX has workers, on a loop that ascends and fits an
  -- `int` with one more round of the team (`Fits`) and that a function shares out which the region
  -- calls: an iteration is run exactly where a thread of the team is on the worker with the number
  -- of the block of the iteration; so, where that number is that of no worker, it is run by
  -- nobody. A thread runs the master region exactly where it is on worker 0.
  pub orphaned_loop-IsRun :
      (m g : ℕ)
      → m * i ≤ span
      → workers ≤ team
      → (IsRun (l +ℤ pos (m * i)) ↔ OnWorker (block_owner span i team m))
        × ((block_owner span i team m < workers) ⊎ (¬ IsRun (l +ℤ pos (m * i))))
        × ((kmpc_master get_worker_thread_num g ≡ 1) ↔ (get_worker_thread_num g ≡ 0))
  unfolding kmpc_master
  orphaned_loop-IsRun m g le few = (
    iteration-IsRun m le few,
    elim (dec_lt (block_owner span i team m) workers) [
      | yes lt ↦ inl lt
      | no out ↦ inr (λ run.
          let (j, lt, on) = (iteration-IsRun m le few).0 run in
          absurd (out (subst (λ w. w < workers) on (on_workers j))))
    ],
    ground arith,
  )
