-- ===== src/Loop/StaticInit/Chunks.antt =====
-- The chunked branch of `omp_static_init` on an ascending loop of `int`s: the same values in
-- exact arithmetic.

use native.Mathlib.Nat.{div-add-mod', div-le_self}
use hpx_mp.Base.{ℕ, ◌+◌, ◌-◌, ◌*◌, ◌/◌, ◌%◌, ◌^◌, ◌≤◌, ◌<◌, ◌≡◌, false, some, arith, ◌==◌}
use hpx_mp.Base.Int.{ℤ, pos, ◌+ℤ◌, ◌≤ℤ◌, InRange, max_value, int32}
use hpx_mp.Base.Int32.{
  norm-pos, sub-pos, sub_back, rem?-negate, add-pos, mul-pos, div?-pos, rem?-pos, add_up, norm_up,
  sub_span, add_more,
}
use hpx_mp.Loop.Schedule.{kmp_sch_static_chunked}
use hpx_mp.Loop.StaticInit.{LoopArgs, static_chunks, for_static_init_4}
use hpx_mp.Loop.StaticInit.Exact.{ascending, mul_mono}

-- A loop from `l` up by `span` in steps of `i`, in chunks of `c`, on `team` threads fits an `int`.
pub record FitsChunks (l : ℤ) (span i c team : ℕ) : Type 0 where
  pub range : InRange int32 l
  pub small : span + 1 + i * c * team < 2 ^ 31
  pub room : l +ℤ pos (span + 1 + i * c * team) ≤ℤ max_value int32
  pub step : 0 < i
  pub chunks : 0 < c
  pub threads : 0 < team

-- What thread `gtid` gets: its first chunk, and the distance to its next one.
abbrev pub chunk_args : ℤ → ℕ → ℕ → ℕ → ℕ → ℕ → LoopArgs
chunk_args l span i c team gtid = record {
  last_iter =
      span / i + 1 - (span / i + 1) % (c * i)
      == gtid * i * c + (span / i + 1) - (span / i + 1) % (c * i * team);
  lower = l +ℤ pos (gtid * i * c);
  upper = l +ℤ pos (gtid * i * c + i * c - 1);
  stride = pos (i * c * team);
}

record Sizes (span i c team gtid : ℕ) : Type 0 where
  start : gtid * i * c + i * c ≤ i * c * team
  round : (i * c ≤ i * c * team) × (c * i * team ≤ i * c * team)
  step : (0 < c * i) × (0 < c * i * team) × (i ≤ i * c) × (c ≤ c * i)
  before : (gtid * i ≤ gtid * i * c)
  trips : span / i ≤ span

mod-le : (a b : ℕ) → a % b ≤ a
mod-le a b = omega (arith, div-add-mod' a b)

mul-le : (a b : ℕ) → 0 < b → a ≤ a * b
mul-le a b h = grind arith

sizes :
    {l : ℤ} {span i c team : ℕ} (gtid : ℕ)
    → FitsChunks l span i c team
    → gtid < team
    → Sizes span i c team gtid
sizes {l} {span} {i} {c} {team} gtid f h = record {
  start = omega (arith, mul_mono (gtid + 1) team (i * c) (omega arith));
  round = (mul-le (i * c) team f.threads, omega arith);
  step = (
    omega (arith, mul-le c i f.step, f.chunks),
    omega (arith, mul-le c i f.step, mul-le (c * i) team f.threads, f.chunks),
    mul-le i c f.chunks,
    mul-le c i f.step,
  );
  before = mul-le (gtid * i) c f.chunks;
  trips = div-le_self span i;
}

module _ {l : ℤ} {span i c team gtid : ℕ} (f : FitsChunks l span i c team)
    (z : Sizes span i c team gtid) where
  static_chunks-Fits :
      static_chunks int32 int32 team gtid
        (pos i)
        (pos c)
        (ascending l span false (pos 0))
        (pos (span / i + 1))
      ≡ some (chunk_args l span i c team gtid)
  unfolding static_chunks
  static_chunks-Fits =
      rw
        (
          mul-pos gtid i (omega arith),
          mul-pos (gtid * i) c (omega arith),
          add_up l (gtid * i * c) (span + 1 + i * c * team) f.range (omega arith) f.room,
          norm_up l (gtid * i * c) (span + 1 + i * c * team) f.range (omega arith) f.room,
          mul-pos i c (omega arith),
          add_more l (gtid * i * c) (i * c) (span + 1 + i * c * team) f.range (omega arith) f.room,
          sub_back l (gtid * i * c + i * c) (span + 1 + i * c * team) f.range (omega arith)
              (omega arith) f.room,
          norm_up l (gtid * i * c + i * c - 1) (span + 1 + i * c * team) f.range (omega arith)
              f.room,
          rem?-negate (span / i + 1) c i z.step.0 (omega arith) (omega arith) (omega arith),
          mul-pos c i (omega arith),
          mul-pos (c * i) team (omega arith),
          rem?-pos (span / i + 1) (c * i * team) z.step.1 (omega arith),
        )
        (rw
          (
            sub-pos (span / i + 1) ((span / i + 1) % (c * i)) (mod-le _ _) (omega arith),
            add-pos (gtid * i * c) (span / i + 1) (omega arith),
            sub-pos (gtid * i * c + (span / i + 1)) ((span / i + 1) % (c * i * team)) over
                (omega arith),
            norm_up l (gtid * i * c) (span + 1 + i * c * team) f.range (omega arith) f.room,
            norm_up l (gtid * i * c + i * c - 1) (span + 1 + i * c * team) f.range (omega arith)
                f.room,
            mul-pos (i * c) team (omega arith),
          )
          (ground arith))
    where
      over : (span / i + 1) % (c * i * team) ≤ gtid * i * c + (span / i + 1)
      over = omega (arith, mod-le (span / i + 1) (c * i * team))

-- The first chunk of a thread and the distance to its next one.
pub for_static_init_4-chunks :
    {l : ℤ} {span i c team : ℕ} (gtid : ℕ)
    → FitsChunks l span i c team
    → gtid < team
    → for_static_init_4 team gtid kmp_sch_static_chunked
        (pos i)
        (pos c)
        (ascending l span false (pos 0))
      ≡ some (chunk_args l span i c team gtid)
unfolding for_static_init_4
for_static_init_4-chunks {l} {span} {i} {c} {team} gtid f g =
    let z : Sizes span i c team gtid = sizes gtid f g in
    rw
      (
        sub_span l span (omega arith),
        norm-pos i (omega arith),
        div?-pos span i f.step (omega arith),
      )
      (rw
        (
          add-pos (span / i) 1 (omega arith),
          norm-pos (span / i + 1) (omega arith),
          rem?-pos (span / i + 1) team f.threads (omega arith),
        )
        (static_chunks-Fits f z))
