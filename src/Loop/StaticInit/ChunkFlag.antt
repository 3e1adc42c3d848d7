-- ===== src/Loop/StaticInit/ChunkFlag.antt =====
-- Which thread the chunked branch of `omp_static_init` tells that it runs the last iteration, for a
-- loop in steps of 1.
use mathlib.Core.Option.{some-injective}
use native.Mathlib.Nat.{div-add-mod', div-div-eq-div-mul, div-one, mul-one}
use hpx_mp.Base.{
  ℕ, ℕ_discrete, ◌⊎◌, ◌+◌, ◌-◌, ◌*◌, ◌/◌, ◌%◌, ◌<◌, ◌≡◌, ◌≢◌, sym, ◌∙◌, ap, subst, true, false,
  some, arith, ◌↔◌, ◌==◌, ==_iff, Bool-cases, inl, inr, dec_lt,
}
use hpx_mp.Base.Int.{ℤ, pos, ◌+ℤ◌}
use hpx_mp.Base.Int32.{+ℤ_cancel-pos}
use hpx_mp.Loop.Schedule.{kmp_sch_static_chunked}
use hpx_mp.Loop.StaticInit.{LoopArgs, for_static_init_4}
use hpx_mp.Loop.StaticInit.Exact.{ascending, mul_mono, pred-div, pred-div_exact}
use hpx_mp.Loop.StaticInit.Partition.{cancel_eq}
use hpx_mp.Loop.StaticInit.Chunks.{FitsChunks, for_static_init_4-chunks}
use hpx_mp.Loop.StaticInit.ChunkPartition.{
  ChunkRunBy, chunk_index, chunk_of, index, static_chunks-covers,
}

-- Rounding down to a whole chunk, and to a whole round of chunks.
round_down : (n c : ℕ) → n - n % c ≡ n / c * c
round_down n c = omega (arith, div-add-mod' n c)

-- A number of whole chunks is a number of whole rounds and the chunks after them.
whole_chunks : (n c team : ℕ) → n - n % c ≡ n / c % team * c + (n - n % (c * team))
whole_chunks n c team = omega (
  arith,
  round_down n c,
  round_down n (c * team),
  ap (λ q. q * (c * team)) (div-div-eq-div-mul n c team),
  ap (λ q. q * c) (div-add-mod' (n / c) team),
)

test_of_rounds :
    (g n c team : ℕ) → 0 < c → (n - n % c ≡ g * c + n - n % (c * team)) ↔ (g ≡ n / c % team)
test_of_rounds g n c team p = (
  λ e.
      cancel_eq g (n / c % team) c p
        (omega (arith, whole_chunks n c team, div-add-mod' n (c * team))),
  λ e. omega (arith, whole_chunks n c team, div-add-mod' n (c * team), ap (λ q. q * c) e),
)

-- The remainders of neighbours differ.
mod-pred-ne : (q t : ℕ) → 0 < q → 1 < t → (q - 1) % t ≢ q % t
mod-pred-ne q t p two e = elim (dec_lt ((q - 1) / t) (q / t)) [
  | yes up ↦ omega (
    arith,
    div-add-mod' q t,
    div-add-mod' (q - 1) t,
    mul_mono ((q - 1) / t + 1) (q / t) t (omega arith),
  )
  | no down ↦ omega (
    arith,
    div-add-mod' q t,
    div-add-mod' (q - 1) t,
    mul_mono (q / t) ((q - 1) / t) t (omega arith),
  )
]

module _ {l : ℤ} {span c team : ℕ} (f : FitsChunks l span 1 c team) where
  -- The flag is set for the owner of the iteration that would come after the last one.
  flag :
      {gtid : ℕ} {r : LoopArgs}
      → gtid < team
      → for_static_init_4 team gtid kmp_sch_static_chunked
          (pos 1)
          (pos c)
          (ascending l span false (pos 0))
        ≡ some r
      → (r.last_iter ≡ true) ↔ (gtid ≡ (span + 1) / c % team)
  flag {gtid} {r} g e = (
    λ set. (test_of_rounds gtid (span + 1) c team f.chunks).0 ((==_iff _ _).0 (sym test ∙ set)),
    λ own. test ∙ (==_iff _ _).1 ((test_of_rounds gtid (span + 1) c team f.chunks).1 own),
  )
    where
      test :
          r.last_iter
          ≡ (span + 1 - (span + 1) % c == gtid * c + (span + 1) - (span + 1) % (c * team))
      test =
          ap (λ q. q.last_iter) (some-injective _ _ (sym e ∙ for_static_init_4-chunks gtid f g))
          ∙ simp (div-one, mul-one)

  runs_last :
      {gtid : ℕ}
      → gtid < team
      → ChunkRunBy l span 1 c team gtid (l +ℤ pos span)
      → gtid ≡ span / c % team
  runs_last {gtid} g run =
      let (k, j, short, _, at) = chunk_index f gtid g run in
      let same : index f gtid k j ≡ span = sym (mul-one _) ∙ sym (+ℤ_cancel-pos l _ _ at) in
      sym (chunk_of f gtid k j g short) ∙ ap (λ n. n / c % team) same

  last_owner : (gtid : ℕ) × (gtid < team) × ChunkRunBy l span 1 c team gtid (l +ℤ pos span)
  last_owner =
      subst (λ n. (gtid : ℕ) × (gtid < team) × ChunkRunBy l span 1 c team gtid (l +ℤ pos n))
        (mul-one span) (static_chunks-covers f span (omega arith))

  -- Of a loop in steps of 1 that fits (`FitsChunks`), where the last chunk is not full, the flag is
  -- set for the thread that runs the last iteration, and for no other of the team.
  chunk_flag_partial :
      {gtid : ℕ} {r : LoopArgs}
      → gtid < team
      → (span + 1) % c ≢ 0
      → for_static_init_4 team gtid kmp_sch_static_chunked
          (pos 1)
          (pos c)
          (ascending l span false (pos 0))
        ≡ some r
      → (r.last_iter ≡ true) ↔ ChunkRunBy l span 1 c team gtid (l +ℤ pos span)
  chunk_flag_partial {gtid} {r} g h e =
      let next : span / c ≡ (span + 1) / c = pred-div span c f.chunks h in
      let (owner, ot, run) = last_owner in
      (
        λ set.
            let same : owner ≡ gtid =
              runs_last ot run ∙ ap (λ n. n % team) next ∙ sym ((flag g e).0 set) in
            subst (λ t. ChunkRunBy l span 1 c team t (l +ℤ pos span)) same run,
        λ run. (flag g e).1 (runs_last g run ∙ ap (λ n. n % team) next),
      )

  -- Of a loop in steps of 1 that fits (`FitsChunks`), where the last chunk is full and there are two
  -- threads or more, the flag is not set for the thread that runs the last iteration.
  chunk_flag_full :
      {gtid : ℕ} {r : LoopArgs}
      → gtid < team
      → 1 < team
      → (span + 1) % c ≡ 0
      → for_static_init_4 team gtid kmp_sch_static_chunked
          (pos 1)
          (pos c)
          (ascending l span false (pos 0))
        ≡ some r
      → ChunkRunBy l span 1 c team gtid (l +ℤ pos span)
      → r.last_iter ≡ false
  chunk_flag_full {gtid} {r} g two h e run =
      let (some_chunk, next) = pred-div_exact span c f.chunks h in
      elim (Bool-cases r.last_iter) [
        | inl set ↦ absurd (
            mod-pred-ne ((span + 1) / c) team some_chunk two
              (ap (λ n. n % team) (sym next) ∙ sym (runs_last g run) ∙ (flag g e).0 set))
        | inr unset ↦ unset
      ]

  -- Of a loop in steps of 1 that fits (`FitsChunks`), on two threads or more: where the last chunk
  -- is not full, the flag is set for the thread that runs the last iteration, and for no other of
  -- the team; where it is full, not for the thread that runs the last iteration.
  pub chunk_flag-last :
      {gtid : ℕ} {r : LoopArgs}
      → gtid < team
      → 1 < team
      → for_static_init_4 team gtid kmp_sch_static_chunked
          (pos 1)
          (pos c)
          (ascending l span false (pos 0))
        ≡ some r
      → (((span + 1) % c ≢ 0)
          × ((r.last_iter ≡ true) ↔ ChunkRunBy l span 1 c team gtid (l +ℤ pos span)))
        ⊎ (((span + 1) % c ≡ 0)
            × ((r.last_iter ≡ false) ⊎ (¬ ChunkRunBy l span 1 c team gtid (l +ℤ pos span))))
  chunk_flag-last {r} g two e = elim (ℕ_discrete ((span + 1) % c) 0) [
    | yes full ↦ inr (
      full,
      elim (Bool-cases r.last_iter) [
        | inl set ↦ inr (λ run. cc (chunk_flag_full g two full e run))
        | inr unset ↦ inl unset
      ],
    )
    | no h ↦ inl (h, chunk_flag_partial g h e)
  ]
