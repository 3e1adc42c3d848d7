-- ===== src/Loop/Dispatch/Static/Request.antt =====
-- One request on a statically scheduled ascending loop of `int`s.
use hpx_mp.Base.{
  ℕ, ◌+◌, ◌*◌, ◌<◌, ◌^◌, ◌≡◌, ◌≢◌, refl, sym, ◌∙◌, ap, Bool, true, false, Option, some, List, [],
  ◌∷◌, arith, ◌==◌, ◌||◌, if◌then◌else◌, ◌>>=◌, length, length-set, get_elem?, get_elem?-set_self,
  get_elem?-set_ne, set, ℕ_discrete, subst, ==_iff,
}
use hpx_mp.Base.Int.{ℤ, pos, ◌+ℤ◌, int32, norm, add, quot, div?, norm_of_InRange}
use hpx_mp.Base.Int32.{norm-pos, norm_up}
use hpx_mp.Loop.Schedule.{kmp_sch_static}
use hpx_mp.Loop.Data.{LoopData}
use hpx_mp.Loop.StaticInit.{LoopArgs, omp_static_init, for_static_init_4}
use hpx_mp.Loop.StaticInit.Exact.{Fits, mul_mono, ascending, block_args, for_static_init_4-block}
use hpx_mp.Loop.Dispatch.{Served, next_static, write}
use hpx_mp.Loop.Dispatch.Dynamic.{write-some}
use hpx_mp.Loop.Dispatch.Requests.{blank}

-- What the loop has to say about itself; the threads of `seen` have asked.
abbrev pub asked : List ℕ → ℕ → Bool
asked [] g = false
asked (h ∷ seen) g = (h == g) || asked seen g

abbrev pub asked_count : List ℕ → ℕ → ℤ
asked_count seen g = if asked seen g then pos 1 else pos 0

pub record AtStatic (l : ℤ) (span i team : ℕ) (chunk : ℤ) (seen : List ℕ) (d : LoopData)
    : Type 0 where
  pub lower : d.lower ≡ l
  pub upper : d.upper ≡ l +ℤ pos span
  pub stride : d.stride ≡ pos i
  pub chunk_size : d.chunk ≡ chunk
  pub firsts : length d.first_iter ≡ team
  pub lasts : length d.last_iter ≡ team
  pub counts : length d.iter_count ≡ team
  pub counted : (g : ℕ) → g < team → get_elem? d.iter_count g ≡ some (asked_count seen g)

div?-some : (a : ℤ) (i : ℕ) → 0 < i → div? int32 a (pos i) ≡ some (norm int32 (quot a (pos i)))
unfolding div?
div?-some a i p = ground arith

abbrev pub after_first : LoopData → ℕ → LoopArgs → ℕ → LoopData
after_first d gtid block i = record d {
  schedule_count = add int32 d.schedule_count (pos 1);
  iter_count = set d.iter_count gtid (pos 1);
  first_iter = set d.first_iter gtid (norm int32 (norm int32 (quot block.lower (pos i))));
  last_iter = set d.last_iter gtid (norm int32 (norm int32 (quot block.upper (pos i))));
}

step_small : {l : ℤ} {span i team : ℕ} → Fits l span i team → i < 2 ^ 31
step_small {l} {span} {i} {team} f =
    omega (arith, f.small, mul_mono 1 team i (omega (arith, f.threads)))

static_init-block :
    (l : ℤ) (span i team gtid : ℕ) (chunk : ℤ)
    → Fits l span i team
    → gtid < team
    → omp_static_init int32 int32 team gtid kmp_sch_static
        (pos i)
        chunk
        (ascending l span false (pos i))
      ≡ some (block_args l span i team gtid (pos i))
unfolding for_static_init_4
static_init-block l span i team gtid chunk f g =
    for_static_init_4-block l span i team gtid chunk false (pos i) f g

-- What `kmp_next` does with a block.
abbrev with_block : LoopData → ℕ → LoopArgs → Option Served
with_block d gtid block = do
  first ← div? int32 block.lower (norm int32 block.stride)
  last ← div? int32 block.upper (norm int32 block.stride)
  firsts ← write d.first_iter gtid (norm int32 first)
  lasts ← write d.last_iter gtid (norm int32 last)
  some (record {
    loop = record d {
      schedule_count = add int32 d.schedule_count (pos 1);
      iter_count = set d.iter_count gtid (pos 1);
      first_iter = firsts;
      last_iter = lasts;
    };
    args = block;
    work = true;
  })

next_static-new :
    (team g : ℕ) (d : LoopData)
    → get_elem? d.iter_count g ≡ some (pos 0)
    → g < length d.iter_count
    → next_static int32 int32 team g d blank ≡ (
        omp_static_init int32 int32 team g kmp_sch_static d.stride d.chunk (record {
          last_iter = false;
          lower = norm int32 d.lower;
          upper = norm int32 d.upper;
          stride = norm int32 d.stride;
        })
        >>= with_block d g)
unfolding next_static
next_static-new team g d zero lt = rw zero (rw (write-some d.iter_count g (pos 1) lt) refl)

normal_args :
    {l : ℤ} {span i team : ℕ} {chunk : ℤ} {seen : List ℕ} {d : LoopData}
    → Fits l span i team
    → AtStatic l span i team chunk seen d
    → (let args : LoopArgs = record {
      last_iter = false;
      lower = norm int32 d.lower;
      upper = norm int32 d.upper;
      stride = norm int32 d.stride;
    } in
        args ≡ ascending l span false (pos i))
normal_args {l} {span} {i} {team} f a =
    simp (a.lower, a.upper, a.stride)
      (rw
        (
          norm_of_InRange int32 l f.range,
          norm_up l span (span + team * i) f.range (omega arith) f.room,
          norm-pos i (step_small f),
        )
        refl)

with_block-some :
    (d : LoopData) (g i : ℕ) (lower upper : ℤ) (last : Bool)
    → 0 < i
    → i < 2 ^ 31
    → g < length d.first_iter
    → g < length d.last_iter
    → (let block : LoopArgs = record {
      last_iter = last;
      lower = lower;
      upper = upper;
      stride = pos i;
    } in
        with_block d g block
        ≡ some (record { loop = after_first d g block i; args = block; work = true }))
with_block-some d g i lower upper last p small fs ls = rw (norm-pos i small) (
    rw (div?-some lower i p, div?-some upper i p)
      (rw (write-some d.first_iter g _ fs, write-some d.last_iter g _ ls) refl))

pub first_request :
    {l : ℤ} {span i team : ℕ} {chunk : ℤ} {seen : List ℕ} {d : LoopData} (g : ℕ)
    → Fits l span i team
    → AtStatic l span i team chunk seen d
    → g < team
    → asked seen g ≡ false
    → next_static int32 int32 team g d blank
      ≡ some (record {
        loop = after_first d g (block_args l span i team g (pos i)) i;
        args = block_args l span i team g (pos i);
        work = true;
      })
first_request {l} {span} {i} {team} {chunk} {seen} {d} g f a lt new =
    let block = block_args l span i team g (pos i) in
    let zero : get_elem? d.iter_count g ≡ some (pos 0) =
      a.counted g lt ∙ ap (λ (b : Bool). some (if b then pos 1 else pos 0)) new in
    next_static-new team g d zero (omega (arith, a.counts))
    ∙ ap
        (λ r.
          omp_static_init int32 int32 team g kmp_sch_static d.stride d.chunk r >>= with_block d g)
        (normal_args f a)
    ∙ ap
        (λ (k : ℤ × ℤ).
          omp_static_init int32 int32 team g kmp_sch_static k.0 k.1 (ascending l span false (pos i))
          >>= with_block d g)
        (λ t. (a.stride t, a.chunk_size t))
    ∙ ap (λ r. r >>= with_block d g) (static_init-block l span i team g chunk f lt)
    ∙ with_block-some d g i block.lower block.upper block.last_iter f.step (step_small f)
        (omega (arith, a.firsts)) (omega (arith, a.lasts))

pub again_request :
    {l : ℤ} {span i team : ℕ} {chunk : ℤ} {seen : List ℕ} {d : LoopData} (g : ℕ) (args : LoopArgs)
    → AtStatic l span i team chunk seen d
    → g < team
    → asked seen g ≡ true
    → next_static int32 int32 team g d args ≡ some (record { loop = d; args = args; work = false })
unfolding next_static
again_request g args a lt old = rw (a.counted g lt, old) refl

-- The entry of a thread that has asked, and those of the others.
asked_self : (seen : List ℕ) (g : ℕ) → asked (g ∷ seen) g ≡ true
asked_self seen g = rw ((==_iff g g).1 refl) refl

asked_other : (seen : List ℕ) (g j : ℕ) → g ≢ j → asked (g ∷ seen) j ≡ asked seen j
asked_other seen g j ne = let off : (g == j) ≡ false = ground arith in rw off refl

abbrev as_count : Bool → Option ℤ
as_count b = some (if b then pos 1 else pos 0)

pub after_first-AtStatic :
    {l : ℤ} {span i team : ℕ} {chunk : ℤ} {seen : List ℕ} {d : LoopData} (g : ℕ) (block : LoopArgs)
    → g < team
    → AtStatic l span i team chunk seen d
    → AtStatic l span i team chunk (g ∷ seen) (after_first d g block i)
after_first-AtStatic {seen = seen} {d = d} g block lt a = record {
  lower = a.lower;
  upper = a.upper;
  stride = a.stride;
  chunk_size = a.chunk_size;
  firsts = length-set d.first_iter g _ ∙ a.firsts;
  lasts = length-set d.last_iter g _ ∙ a.lasts;
  counts = length-set d.iter_count g (pos 1) ∙ a.counts;
  counted = λ j jt. elim (ℕ_discrete g j) [
    | yes same ↦
        subst (λ m. get_elem? (set d.iter_count g (pos 1)) m ≡ some (asked_count (g ∷ seen) m)) same
          (get_elem?-set_self d.iter_count g (pos 1) (omega (arith, a.counts))
            ∙ sym (ap as_count (asked_self seen g)))
    | no ne ↦
        get_elem?-set_ne d.iter_count g j (pos 1) ne
        ∙ a.counted j jt
        ∙ sym (ap as_count (asked_other seen g j ne))
  ];
}

pub again-AtStatic :
    {l : ℤ} {span i team : ℕ} {chunk : ℤ} {seen : List ℕ} {d : LoopData} (g : ℕ)
    → g < team
    → asked seen g ≡ true
    → AtStatic l span i team chunk seen d
    → AtStatic l span i team chunk (g ∷ seen) d
again-AtStatic {seen = seen} {d = d} g lt old a = record {
  lower = a.lower;
  upper = a.upper;
  stride = a.stride;
  chunk_size = a.chunk_size;
  firsts = a.firsts;
  lasts = a.lasts;
  counts = a.counts;
  counted = λ j jt. elim (ℕ_discrete g j) [
    | yes same ↦
        subst (λ m. get_elem? d.iter_count m ≡ some (asked_count (g ∷ seen) m)) same
          (a.counted g lt ∙ ap as_count (old ∙ sym (asked_self seen g)))
    | no ne ↦ a.counted j jt ∙ sym (ap as_count (asked_other seen g j ne))
  ];
}
