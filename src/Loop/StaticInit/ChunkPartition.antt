-- ===== src/Loop/StaticInit/ChunkPartition.antt =====
-- Which iterations of an ascending loop of `int`s are in which chunk of `omp_static_init`.
use mathlib.Core.Option.{some-injective}
use native.Mathlib.Nat.{div-add-mod', mod-lt, div-eq_of_lt-le}
use hpx_mp.Base.{ℕ, ◌+◌, ◌-◌, ◌*◌, ◌/◌, ◌%◌, ◌≤◌, ◌<◌, ◌≡◌, sym, ◌∙◌, ap, subst, false, some, arith}
use hpx_mp.Base.Int.{ℤ, pos, pos_part, ◌+ℤ◌, ◌≤ℤ◌}
use hpx_mp.Base.Int32.{+ℤ_cancel-pos, ≤ℤ-up, up-≤ℤ, +ℤ_assoc-pos}
use hpx_mp.Loop.Schedule.{kmp_sch_static_chunked}
use hpx_mp.Loop.StaticInit.{LoopArgs, for_static_init_4}
use hpx_mp.Loop.StaticInit.Exact.{ascending, mul_mono}
use hpx_mp.Loop.StaticInit.Partition.{cancel_eq}
use hpx_mp.Loop.StaticInit.Chunks.{FitsChunks, chunk_args, for_static_init_4-chunks}

lt_of_mul : (a b i : ℕ) → a * i < b * i → a < b
lt_of_mul a b i h = grind arith

mul-pos_of : {a b : ℕ} → 0 < a → 0 < b → 0 < a * b
mul-pos_of h k = grind arith

in_round : (k g t : ℕ) → g < t → (k * t + g) % t ≡ g
in_round k g t h =
    let q : (k * t + g) / t ≡ k = div-eq_of_lt-le t (omega arith) (omega arith) in
    omega (arith, div-add-mod' (k * t + g) t, ap (λ n. n * t) q)

-- `for (; lower <= bound; lower += stride, upper += stride)
--    for (v = lower; v <= upper && v <= bound; v += i)` comes to `v`.
abbrev pub RunsChunks : LoopArgs → ℤ → ℕ → ℤ → Type 0
RunsChunks r bound i v =
    (k : ℕ) × (j : ℕ) × (v ≡ r.lower +ℤ pos (k * pos_part r.stride) +ℤ pos (j * i))
    × (v ≤ℤ r.upper +ℤ pos (k * pos_part r.stride))
    × (v ≤ℤ bound)

-- Thread `gtid` of the team comes to `v` in one of the chunks that it is given.
abbrev pub ChunkRunBy : ℤ → ℕ → ℕ → ℕ → ℕ → ℕ → ℤ → Type 0
ChunkRunBy l span i c team gtid v =
    (r : LoopArgs) × (for_static_init_4 team gtid kmp_sch_static_chunked (pos i) (pos c)
        (ascending l span false (pos 0))
      ≡ some r)
    × RunsChunks r (l +ℤ pos span) i v

module _ {l : ℤ} {span i c team : ℕ} (f : FitsChunks l span i c team) where
  -- The index of the iteration at place `j` of the chunk that thread `gtid` has in round `k`.
  abbrev pub index : ℕ → ℕ → ℕ → ℕ
  index gtid k j = (k * team + gtid) * c + j

  place : (gtid k j : ℕ) → gtid * i * c + k * (i * c * team) + j * i ≡ index gtid k j * i
  place gtid k j = omega arith

  last_place :
      (gtid k j : ℕ) → j < c → index gtid k j * i ≤ gtid * i * c + i * c - 1 + k * (i * c * team)
  last_place gtid k j h = omega (arith, mul_mono (j + 1) c i (omega arith), f.step)

  pub chunk_index :
      (gtid : ℕ) {v : ℤ}
      → gtid < team
      → ChunkRunBy l span i c team gtid v
      → (k : ℕ) × (j : ℕ) × (j < c)
        × (index gtid k j * i ≤ span)
        × (v ≡ l +ℤ pos (index gtid k j * i))
  chunk_index gtid {v} g (r, e, runs) = from_args (
      subst (λ q. RunsChunks q (l +ℤ pos span) i v)
        (some-injective _ _ (sym e ∙ for_static_init_4-chunks gtid f g)) runs)
    where
      from_args :
          RunsChunks (chunk_args l span i c team gtid) (l +ℤ pos span) i v
          → (k : ℕ) × (j : ℕ) × (j < c)
            × (index gtid k j * i ≤ span)
            × (v ≡ l +ℤ pos (index gtid k j * i))
      from_args (k, j, at, under, inside) =
          let here : v ≡ l +ℤ pos (index gtid k j * i) =
            at
            ∙ ap (λ w. w +ℤ pos (j * i)) (+ℤ_assoc-pos l (gtid * i * c) (k * (i * c * team)))
            ∙ +ℤ_assoc-pos l (gtid * i * c + k * (i * c * team)) (j * i)
            ∙ ap (λ n. l +ℤ pos n) (place gtid k j) in
          let upto : index gtid k j * i ≤ gtid * i * c + i * c - 1 + k * (i * c * team) =
            ≤ℤ-up l _ _ (
              subst (λ w. w ≤ℤ l +ℤ pos (gtid * i * c + i * c - 1 + k * (i * c * team))) here
                (subst (λ w. v ≤ℤ w)
                  (+ℤ_assoc-pos l (gtid * i * c + i * c - 1) (k * (i * c * team))) under)) in
          let short : j < c = lt_of_mul j c i (omega (arith, upto, mul-pos_of f.step f.chunks)) in
          (k, j, short, ≤ℤ-up l _ _ (subst (λ w. w ≤ℤ l +ℤ pos span) here inside), here)

  in_chunk : (gtid k j : ℕ) → j < c → index gtid k j / c ≡ k * team + gtid
  in_chunk gtid k j h = div-eq_of_lt-le c (omega arith) (omega arith)

  pub chunk_of : (gtid k j : ℕ) → gtid < team → j < c → index gtid k j / c % team ≡ gtid
  chunk_of gtid k j g h = rw (in_chunk gtid k j h) (in_round k gtid team g)

  place_of : (m : ℕ) → index (m / c % team) (m / c / team) (m % c) ≡ m
  place_of m = omega (arith, div-add-mod' m c, ap (λ n. n * c) (div-add-mod' (m / c) team))

  -- Of a loop that fits (`FitsChunks`), every value between the bounds that the loop comes to is in
  -- a chunk of a thread of the team.
  pub static_chunks-covers :
      (m : ℕ)
      → m * i ≤ span
      → (gtid : ℕ) × (gtid < team) × ChunkRunBy l span i c team gtid (l +ℤ pos (m * i))
  static_chunks-covers m h = (
    owner,
    g,
    (
      chunk_args l span i c team owner,
      for_static_init_4-chunks owner f g,
      (k, j, at, under, up-≤ℤ l _ _ h),
    ),
  )
    where
      owner : ℕ
      owner = m / c % team

      k : ℕ
      k = m / c / team

      j : ℕ
      j = m % c

      g : owner < team
      g = mod-lt (m / c) f.threads

      at : l +ℤ pos (m * i) ≡ l +ℤ pos (owner * i * c) +ℤ pos (k * (i * c * team)) +ℤ pos (j * i)
      at = sym (
          ap (λ w. w +ℤ pos (j * i)) (+ℤ_assoc-pos l (owner * i * c) (k * (i * c * team)))
          ∙ +ℤ_assoc-pos l (owner * i * c + k * (i * c * team)) (j * i)
          ∙ ap (λ n. l +ℤ pos n) (place owner k j ∙ ap (λ n. n * i) (place_of m)))

      under : l +ℤ pos (m * i) ≤ℤ l +ℤ pos (owner * i * c + i * c - 1) +ℤ pos (k * (i * c * team))
      under = rw (+ℤ_assoc-pos l (owner * i * c + i * c - 1) (k * (i * c * team))) (
          up-≤ℤ l (m * i) _
            (omega (arith, last_place owner k j (mod-lt m f.chunks), ap (λ n. n * i) (place_of m))))

  -- Of a loop that fits (`FitsChunks`), no value is in chunks of two threads of the team, and each
  -- value in a chunk is a value of the loop.
  pub static_chunks-disjoint :
      {g h : ℕ} {v : ℤ}
      → g < team
      → h < team
      → ChunkRunBy l span i c team g v
      → ChunkRunBy l span i c team h v
      → (g ≡ h) × ((m : ℕ) × (m * i ≤ span) × (v ≡ l +ℤ pos (m * i)))
  static_chunks-disjoint {g} {h} {v} gt ht rg rh =
      let (k, j, short, inside, at) = chunk_index g gt rg in
      let (k', j', short', inside', at') = chunk_index h ht rh in
      let same : index g k j ≡ index h k' j' =
        cancel_eq _ _ i f.step (+ℤ_cancel-pos l _ _ (sym at ∙ at')) in
      (
        sym (chunk_of g k j gt short) ∙ ap (λ n. n / c % team) same ∙ chunk_of h k' j' ht short',
        (index g k j, inside, at),
      )
