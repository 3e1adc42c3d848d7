-- ===== src/Loop/StaticInit/LastFlag.antt =====
-- Which thread `omp_static_init` tells that it runs the last iteration (`*p_last_iter`).
use mathlib.Core.Option.{some-injective}
use native.Mathlib.Nat.{div-eq_of_lt, div-mul-le_self}
use hpx_mp.Base.{
  ℕ, dec_lt, ◌⊎◌, inl, inr, ◌+◌, ◌*◌, ◌/◌, ◌≤◌, ◌<◌, ◌≡◌, sym, ◌∙◌, ap, true, false, some, arith,
  ◌↔◌, ◌==◌, ==_iff, subst,
}
use hpx_mp.Base.Int.{ℤ, pos, ◌+ℤ◌}
use hpx_mp.Base.Int32.{+ℤ_cancel-pos}
use hpx_mp.Loop.Schedule.{kmp_sch_static}
use hpx_mp.Loop.StaticInit.{LoopArgs, for_static_init_4}
use hpx_mp.Loop.StaticInit.Exact.{Fits, rounds, ascending, for_static_init_4-block}
use hpx_mp.Loop.StaticInit.Partition.{RunBy, run_index, static_block-covers, cancel_eq}

module _ {l : ℤ} {span i team : ℕ} (chunk : ℤ) (f : Fits l span i team) where
  flag :
      {gtid : ℕ} {r : LoopArgs}
      → gtid < team
      → for_static_init_4 team gtid kmp_sch_static (pos i) chunk (ascending l span false (pos 0))
        ≡ some r
      → r.last_iter ≡ (gtid == span / i)
  flag {gtid} g e =
      ap (λ q. q.last_iter)
        (some-injective _ _
          (sym e ∙ for_static_init_4-block l span i team gtid chunk false (pos 0) f g))

  runs_last :
      {gtid : ℕ}
      → gtid < team
      → span / i < team
      → RunBy l span i team chunk gtid (l +ℤ pos (span / i * i))
      → gtid ≡ span / i
  runs_last {gtid} g few run =
      let one : rounds span i team ≡ 0 = div-eq_of_lt few in
      let (k, small, _, at) = run_index chunk f g run in
      let same : span / i ≡ gtid * (rounds span i team + 1) + k =
        cancel_eq _ _ i f.step (+ℤ_cancel-pos l _ _ at) in
      omega (arith, same, one, small, ap (λ n. gtid * n) one)

  -- Of a loop that fits (`Fits`), with at most as many iterations as threads, the flag is set for
  -- the thread that runs the last iteration, and for no other of the team.
  last_iter-few :
      {gtid : ℕ} {r : LoopArgs}
      → gtid < team
      → span / i < team
      → for_static_init_4 team gtid kmp_sch_static (pos i) chunk (ascending l span false (pos 0))
        ≡ some r
      → (r.last_iter ≡ true) ↔ RunBy l span i team chunk gtid (l +ℤ pos (span / i * i))
  last_iter-few {gtid} {r} g few e = (
    λ set.
        let (h, ht, run) = static_block-covers chunk f (span / i) (div-mul-le_self span i) in
        let same : h ≡ gtid =
          runs_last ht few run ∙ sym ((==_iff gtid (span / i)).0 (sym (flag g e) ∙ set)) in
        subst (λ t. RunBy l span i team chunk t (l +ℤ pos (span / i * i))) same run,
    λ run. flag g e ∙ (==_iff gtid (span / i)).1 (runs_last g few run),
  )

  -- Of a loop that fits (`Fits`), with more iterations than threads, the flag is set for no thread
  -- of the team.
  last_iter-many :
      {gtid : ℕ} {r : LoopArgs}
      → gtid < team
      → team ≤ span / i
      → for_static_init_4 team gtid kmp_sch_static (pos i) chunk (ascending l span false (pos 0))
        ≡ some r
      → r.last_iter ≡ false
  last_iter-many {gtid} g many e = ground (arith, flag g e)

  -- Of a loop that fits (`Fits`): with at most as many iterations as threads, the flag is set for
  -- the thread that runs the last iteration, and for no other of the team; with more, for none.
  pub last_iter-flag :
      {gtid : ℕ} {r : LoopArgs}
      → gtid < team
      → for_static_init_4 team gtid kmp_sch_static (pos i) chunk (ascending l span false (pos 0))
        ≡ some r
      → ((span / i < team)
          × ((r.last_iter ≡ true) ↔ RunBy l span i team chunk gtid (l +ℤ pos (span / i * i))))
        ⊎ ((team ≤ span / i) × (r.last_iter ≡ false))
  last_iter-flag g e = elim (dec_lt (span / i) team) [
    | yes few ↦ inl (few, last_iter-few g few e)
    | no many ↦ inr (omega (arith, many), last_iter-many g (omega (arith, many)) e)
  ]
