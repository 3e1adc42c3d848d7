-- ===== src/Loop/Dispatch/Dynamic.antt =====
-- A dynamically scheduled ascending loop of `int`s: one request.
use hpx_mp.Base.{
  ℕ, ◌+◌, ◌-◌, ◌*◌, ◌^◌, ◌≤◌, ◌<◌, ◌≡◌, refl, ◌∙◌, Bool, true, false, some, List, arith, ltb,
  lt→ltb, if◌then◌else◌, length, length-set, set,
}
use hpx_mp.Base.Int.{ℤ, pos, ◌+ℤ◌, ◌≤ℤ◌, InRange, max_value, int32, add}
use hpx_mp.Base.Int32.{norm-pos, add-pos, mul-pos, sub_one, add_up, norm_up, add_more, ltb_ℤ-up}
use hpx_mp.Loop.Data.{LoopData}
use hpx_mp.Loop.StaticInit.{LoopArgs}
use hpx_mp.Loop.StaticInit.Exact.{pred_mul}
use hpx_mp.Loop.Dispatch.{next_dynamic, write}

-- The loop from `l` up by `span` in steps of `s`, in chunks of `c`, fits an `int` for `n` requests.
pub record Fits (l : ℤ) (span s c n : ℕ) : Type 0 where
  pub range : InRange int32 l
  pub small : span + n * s * c + s * c < 2 ^ 31
  pub room : l +ℤ pos (span + n * s * c + s * c) ≤ℤ max_value int32
  pub requests : n < 2 ^ 31 - c
  pub step : 0 < s
  pub chunks : 0 < c

-- What the loop has to say about itself after `n` requests.
pub record AtRequest (l : ℤ) (span s c n team_size : ℕ) (d : LoopData) : Type 0 where
  pub lower : d.lower ≡ l
  pub upper : d.upper ≡ l +ℤ pos span
  pub stride : d.stride ≡ pos s
  pub chunk : d.chunk ≡ pos c
  pub count : d.schedule_count ≡ pos n
  pub firsts : length d.first_iter ≡ team_size
  pub lasts : length d.last_iter ≡ team_size

-- Chunk `n`, and whether there is one.
abbrev pub chunk_args : ℤ → ℕ → ℕ → ℕ → ℕ → LoopArgs
chunk_args l span s c n = record {
  last_iter = if ltb span (n * s * c) then false else ltb span (n * s * c + (c - 1) * s);
  lower = l +ℤ pos (n * s * c);
  upper =
      l
      +ℤ pos (
          if ltb span (n * s * c)
          then n * s * c + (c - 1) * s
          else if ltb span (n * s * c + (c - 1) * s)
          then span
          else n * s * c + (c - 1) * s);
  stride = pos s;
}

abbrev pub has_chunk : ℕ → ℕ → ℕ → ℕ → Bool
has_chunk span s c n = if ltb span (n * s * c) then false else true

pub write-some : (v : List ℤ) (i : ℕ) (a : ℤ) → i < length v → write v i a ≡ some (set v i a)
unfolding write
write-some v i a h = rw (lt→ltb i (length v) h)

abbrev pub after_request : LoopData → ℕ → ℕ → ℕ → LoopData
after_request d c n gtid = record d {
  schedule_count = pos (n + 1);
  first_iter = set d.first_iter gtid (pos n);
  last_iter = set d.last_iter gtid (pos (n + c));
}

pub after_request-AtRequest :
    {l : ℤ} {span s c n team_size : ℕ} {d : LoopData} (gtid : ℕ)
    → AtRequest l span s c n team_size d
    → AtRequest l span s c (n + 1) team_size (after_request d c n gtid)
after_request-AtRequest {c = c} {n = n} {d = d} gtid a = record {
  lower = a.lower;
  upper = a.upper;
  stride = a.stride;
  chunk = a.chunk;
  count = refl;
  firsts = length-set d.first_iter gtid (pos n) ∙ a.firsts;
  lasts = length-set d.last_iter gtid (pos (n + c)) ∙ a.lasts;
}

record Sizes (s c n : ℕ) : Type 0 where
  ns : n * s ≤ n * s * c
  cs : (c - 1) * s + s ≡ s * c
  ss : s ≤ s * c
  cc : c ≤ s * c

sizes : (s c n : ℕ) → 0 < s → 0 < c → Sizes s c n
sizes s c n p q = record {
  ns = grind arith;
  cs = omega (arith, pred_mul c s q);
  ss = grind arith;
  cc = grind arith;
}

pub next_dynamic-chunk :
    {l : ℤ} {span s c n team_size : ℕ} {d : LoopData} (gtid : ℕ) (args : LoopArgs)
    → Fits l span s c n
    → AtRequest l span s c n team_size d
    → gtid < team_size
    → next_dynamic int32 int32 gtid d args
      ≡ some (record {
        loop = after_request d c n gtid;
        args = chunk_args l span s c n;
        work = has_chunk span s c n;
      })
unfolding next_dynamic
next_dynamic-chunk {l} {span} {s} {c} {n} {team_size} {d} gtid args f a g =
    let z : Sizes s c n = sizes s c n f.step f.chunks in
    simp (a.count, a.lower, a.upper, a.stride, a.chunk)
      (rw
        (
          write-some d.first_iter gtid (pos n) (omega (arith, a.firsts)),
          write-some d.last_iter gtid (add int32 (pos n) (pos c)) (omega (arith, a.lasts)),
          add-pos n c (omega arith),
          add-pos n 1 (omega arith),
          mul-pos n s (omega (arith, z.ns)),
          mul-pos (n * s) c (omega arith),
          add_up l (n * s * c) (span + n * s * c + s * c) f.range (omega arith) f.room,
          sub_one c f.chunks (omega arith),
          mul-pos (c - 1) s (omega arith),
          add_more l (n * s * c) ((c - 1) * s) (span + n * s * c + s * c) f.range (omega arith)
              f.room,
          norm_up l span (span + n * s * c + s * c) f.range (omega arith) f.room,
          norm-pos s (omega arith),
          ltb_ℤ-up l span (n * s * c),
          ltb_ℤ-up l span (n * s * c + (c - 1) * s),
        )
        (ground arith))
