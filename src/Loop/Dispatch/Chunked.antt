-- ===== src/Loop/Dispatch/Chunked.antt =====
-- One request on an ascending loop of `int`s with a static chunked schedule.
use hpx_mp.Base.{
  ℕ, suc, ◌+◌, ◌-◌, ◌*◌, ◌≤◌, ◌<◌, ◌^◌, ◌≡◌, ◌≢◌, refl, sym, ◌∙◌, ap, Bool, true, false, some, List,
  [], ◌∷◌, arith, ◌==◌, if◌then◌else◌, ltb, length, length-set, get_elem?, get_elem?-set_self,
  get_elem?-set_ne, set, ℕ_discrete, subst, ==_iff,
}
use hpx_mp.Base.Int.{ℤ, pos, ◌+ℤ◌, ◌≤ℤ◌, InRange, max_value, int32, add, mul, eqb_ℤ, +ℤ_parts}
use hpx_mp.Base.Int32.{norm-pos, add-pos, mul-pos, sub_one, add_up, norm_up, add_more, ltb_ℤ-up}
use hpx_mp.Loop.Data.{LoopData}
use hpx_mp.Loop.StaticInit.{LoopArgs}
use hpx_mp.Loop.StaticInit.Exact.{mul_mono, pred_mul}
use hpx_mp.Loop.Dispatch.{next_static_chunked}
use hpx_mp.Loop.Dispatch.Dynamic.{write-some}
use hpx_mp.Loop.Dispatch.Requests.{blank}

-- The loop from `l` up by `span` in steps of `s`, in chunks of `c`, fits an `int` for `n` requests of
-- each thread of the team.
pub record FitsRounds (l : ℤ) (span s c team n : ℕ) : Type 0 where
  pub range : InRange int32 l
  pub small : span + c * (team * s * n) < 2 ^ 31
  pub room : l +ℤ pos (span + c * (team * s * n)) ≤ℤ max_value int32
  pub step : 0 < s
  pub chunks : 0 < c
  pub threads : 0 < team

-- How often a thread is in a list.
abbrev pub times : List ℕ → ℕ → ℕ
times [] g = 0
times (h ∷ seen) g = if h == g then suc (times seen g) else times seen g

-- What the loop has to say about itself; `seen` are the requests made.
pub record AtChunked (l : ℤ) (span s c team : ℕ) (seen : List ℕ) (d : LoopData) : Type 0 where
  pub lower : d.lower ≡ l
  pub upper : d.upper ≡ l +ℤ pos span
  pub stride : d.stride ≡ pos s
  pub chunk : d.chunk ≡ pos c
  pub size : d.num_threads ≡ team
  pub firsts : length d.first_iter ≡ team
  pub lasts : length d.last_iter ≡ team
  pub counts : length d.iter_count ≡ team
  pub counted : (g : ℕ) → g < team → get_elem? d.iter_count g ≡ some (pos (times seen g))

-- A chunk that begins `o` above the lower bound, cut at the upper one, and whether it begins in the
-- loop.
abbrev pub chunk_from : ℤ → ℕ → ℕ → ℕ → ℕ → LoopArgs × Bool
chunk_from l span s c o = (
  record {
    last_iter = o + s * (c - 1) == span;
    lower = l +ℤ pos o;
    upper = l +ℤ pos (if ltb span (o + s * (c - 1)) then span else o + s * (c - 1));
    stride = pos s;
  },
  if ltb span o then false else true,
)

-- Where request number `r` of a thread begins.
abbrev pub offset : ℕ → ℕ → ℕ → ℕ → ℕ → ℕ
offset s c team g r = c * (g + team * s * r)

abbrev pub after_chunk : LoopData → ℕ → ℕ → ℕ → LoopData
after_chunk d gtid r c = record d {
  schedule_count = add int32 d.schedule_count d.chunk;
  first_iter =
      set d.first_iter gtid
        (add int32 (pos gtid) (mul int32 (mul int32 (pos r) d.stride) (pos d.num_threads)));
  last_iter = set d.last_iter gtid (
      add int32 (add int32 (pos gtid) (mul int32 (mul int32 (pos r) d.stride) (pos d.num_threads)))
        d.stride);
  iter_count = set d.iter_count gtid (pos (r + 1));
}

eqb_ℤ-up : (l : ℤ) (a b : ℕ) → eqb_ℤ (l +ℤ pos a) (l +ℤ pos b) ≡ (a == b)
eqb_ℤ-up l a b = ground (arith, +ℤ_parts l (pos a), +ℤ_parts l (pos b))

record Sizes (s c team g r n : ℕ) : Type 0 where
  threads : team ≤ team * s
  step : s ≤ team * s
  before : team * s * r + team * s ≤ team * s * n
  rounds : n ≤ team * s * n
  inner : g + team * s * r ≤ c * (g + team * s * r)
  chunk : c ≤ c * (team * s * n)
  all : team * s * n ≤ c * (team * s * n)
  ends : c * (g + team * s * r) + s * (c - 1) ≤ c * (team * s * n)

mul-le : (a b : ℕ) → 0 < b → a ≤ a * b
mul-le a b h = grind arith

mul-le_left : (a b : ℕ) → 0 < b → a ≤ b * a
mul-le_left a b h = grind arith

last_of_round : (s team g : ℕ) → g < team → 0 < s → g + s ≤ team * s
last_of_round s team g lt p = omega (arith, mul_mono (g + 1) team s (omega arith), mul-le g s p)

sizes :
    {l : ℤ} {span s c team n : ℕ} (g r : ℕ)
    → FitsRounds l span s c team n
    → g < team
    → r < n
    → Sizes s c team g r n
sizes {s = s} {c} {team} {n} g r f lt few =
    let before : team * s * r + team * s ≤ team * s * n =
      omega (arith, mul_mono (r + 1) n (team * s) (omega arith)) in
    record {
      threads = mul-le team s f.step;
      step = mul-le_left s team f.threads;
      before = before;
      rounds =
          omega (arith, mul-le_left n (team * s) (omega (arith, mul-le team s f.step, f.threads)));
      inner = mul-le_left (g + team * s * r) c f.chunks;
      chunk = omega (
        arith,
        mul-le c (team * s * n) (
            omega (
              arith,
              mul-le team s f.step,
              f.threads,
              mul-le_left n (team * s) (omega (arith, mul-le team s f.step, f.threads)),
            )),
      );
      all = mul-le_left (team * s * n) c f.chunks;
      ends = omega (
        arith,
        last_of_round s team g lt f.step,
        pred_mul c s f.chunks,
        mul_mono (g + team * s * r + s) (team * s * n) c
            (omega (arith, before, last_of_round s team g lt f.step)),
      );
    }

pub next_chunked-chunk :
    {l : ℤ} {span s c team n : ℕ} {seen : List ℕ} {d : LoopData} (g : ℕ)
    → FitsRounds l span s c team n
    → AtChunked l span s c team seen d
    → g < team
    → times seen g < n
    → (let out = chunk_from l span s c (offset s c team g (times seen g)) in
        next_static_chunked int32 int32 g d blank
        ≡ some (record { loop = after_chunk d g (times seen g) c; args = out.0; work = out.1 }))
unfolding next_static_chunked
next_chunked-chunk {l} {span} {s} {c} {team} {n} {seen} {d} g f a lt few =
    let r = times seen g in
    let z : Sizes s c team g r n = sizes g r f lt few in
    simp (a.counted g lt, a.lower, a.upper, a.stride, a.chunk, a.size)
      (rw
        (
          write-some d.first_iter g _ (omega (arith, a.firsts)),
          write-some d.last_iter g _ (omega (arith, a.lasts)),
          add-pos r 1 (omega (arith, z.rounds, z.all, f.small)),
          write-some d.iter_count g (pos (r + 1)) (omega (arith, a.counts)),
          mul-pos team s (omega (arith, z.before, z.all, f.small)),
          mul-pos (team * s) r (omega (arith, z.before, z.all, f.small)),
          add-pos g (team * s * r) (omega (arith, z.inner, z.ends, f.small)),
          mul-pos c (g + team * s * r) (omega (arith, z.ends, f.small)),
        )
        (rw
          (
            add_up l (c * (g + team * s * r)) (span + c * (team * s * n)) f.range
                (omega (arith, z.ends)) f.room,
            sub_one c f.chunks (omega (arith, z.chunk, f.small)),
            mul-pos s (c - 1) (omega (arith, z.ends, f.small)),
            add_more l (c * (g + team * s * r)) (s * (c - 1)) (span + c * (team * s * n)) f.range
                (omega (arith, z.ends)) f.room,
            norm_up l span (span + c * (team * s * n)) f.range (omega arith) f.room,
            norm-pos s (omega (arith, z.step, z.before, z.all, f.small)),
            eqb_ℤ-up l (c * (g + team * s * r) + s * (c - 1)) span,
            ltb_ℤ-up l span (c * (g + team * s * r)),
            ltb_ℤ-up l span (c * (g + team * s * r) + s * (c - 1)),
          )
          (ground arith)))

pub times_self : (seen : List ℕ) (g : ℕ) → times (g ∷ seen) g ≡ suc (times seen g)
times_self seen g = rw ((==_iff g g).1 refl) refl

times_other : (seen : List ℕ) (g j : ℕ) → g ≢ j → times (g ∷ seen) j ≡ times seen j
times_other seen g j ne = let off : (g == j) ≡ false = ground arith in rw off refl

pub after_chunk-AtChunked :
    {l : ℤ} {span s c team : ℕ} {seen : List ℕ} {d : LoopData} (g : ℕ)
    → g < team
    → AtChunked l span s c team seen d
    → AtChunked l span s c team (g ∷ seen) (after_chunk d g (times seen g) c)
after_chunk-AtChunked {seen = seen} {d = d} g lt a =
    let more = set d.iter_count g (pos (times seen g + 1)) in
    record {
      lower = a.lower;
      upper = a.upper;
      stride = a.stride;
      chunk = a.chunk;
      size = a.size;
      firsts = length-set d.first_iter g _ ∙ a.firsts;
      lasts = length-set d.last_iter g _ ∙ a.lasts;
      counts = length-set d.iter_count g _ ∙ a.counts;
      counted = λ j jt. elim (ℕ_discrete g j) [
        | yes same ↦
            subst (λ m. get_elem? more m ≡ some (pos (times (g ∷ seen) m))) same
              (get_elem?-set_self d.iter_count g (pos (times seen g + 1)) (omega (arith, a.counts))
                ∙ ap (λ m. some (pos m)) (omega (arith, times_self seen g)))
        | no ne ↦
            get_elem?-set_ne d.iter_count g j (pos (times seen g + 1)) ne
            ∙ a.counted j jt
            ∙ ap (λ m. some (pos m)) (sym (times_other seen g j ne))
      ];
    }
