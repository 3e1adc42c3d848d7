-- ===== src/Loop/StaticInit/Exact.antt =====
-- What `omp_static_init` computes for an ascending loop of `int`s whose bounds leave room for one
-- more step of each thread: the same values in exact arithmetic.
use native.Mathlib.Nat.{div-add-mod', div-le_self, div-mul-le_self, div-eq_of_lt-le, mod-lt}
use hpx_mp.Base.{
  ℕ, zero, suc, ◌+◌, ◌-◌, ◌*◌, ◌/◌, ◌%◌, ◌^◌, ◌≤◌, ◌<◌, ◌≡◌, Bool, some, ◌==◌, if◌then◌else◌, arith,
  ltb, ◌≢◌, ℕ_discrete,
}
use hpx_mp.Base.Int.{ℤ, pos, negsuc, int32, add, eqb_ℤ, ◌+ℤ◌, ◌≤ℤ◌, InRange, max_value}
use hpx_mp.Base.Int32.{
  norm-pos, add-pos, mul-pos, sub_one, add_minus_one, div?-pos, rem?-pos, add_up, norm_up, sub_span,
  add_more, ltb_ℤ-up,
}
use hpx_mp.Loop.Schedule.{kmp_sch_static}
use hpx_mp.Loop.StaticInit.{LoopArgs, static_block, for_static_init_4}

-- The loop from `l` up by `span`, in steps of `i`, on `team` threads fits an `int`.
pub record Fits (l : ℤ) (span i team : ℕ) : Type 0 where
  pub range : InRange int32 l
  pub small : span + team * i < 2 ^ 31
  pub room : l +ℤ pos (span + team * i) ≤ℤ max_value int32
  pub step : 0 < i
  pub threads : 0 < team

-- The number of whole rounds that precede the last iteration.
abbrev pub rounds : ℕ → ℕ → ℕ → ℕ
rounds span i team = span / i / team

-- Where the block of a thread starts, and where it ends, counted from the lower bound.
abbrev pub block_start : ℕ → ℕ → ℕ → ℕ → ℕ
block_start span i team gtid = gtid * ((rounds span i team + 1) * i)

abbrev pub block_end : ℕ → ℕ → ℕ → ℕ → ℕ
block_end span i team gtid = block_start span i team gtid + rounds span i team * i

pub mul_mono : (a b c : ℕ) → a ≤ b → a * c ≤ b * c
mul_mono a b c h = grind arith

pub block_end-le :
    (span i team gtid : ℕ) → gtid < team → block_end span i team gtid + i ≤ span + team * i
block_end-le span i team gtid h = omega (
  arith,
  mul_mono (gtid + 1) team ((rounds span i team + 1) * i) (omega arith),
  mul_mono (rounds span i team * team) (span / i) i (div-mul-le_self (span / i) team),
  div-mul-le_self span i,
)

div-pred : (n team q : ℕ) → q * team ≤ n → n < q * team + team → n / team ≡ q
div-pred n team q lo hi = div-eq_of_lt-le team lo (omega arith)

pub pred-div : (n team : ℕ) → 0 < team → (n + 1) % team ≢ 0 → n / team ≡ (n + 1) / team
pred-div n team h r =
    div-pred n team ((n + 1) / team) (omega (arith, div-add-mod' (n + 1) team))
      (omega (arith, div-add-mod' (n + 1) team, mod-lt (n + 1) h))

pos_of_mul : (q t n : ℕ) → q * t ≡ n + 1 → 0 < q
pos_of_mul zero t n h = omega arith
pos_of_mul (suc q) t n h = omega arith

pub pred_mul : (q t : ℕ) → 0 < q → (q - 1) * t + t ≡ q * t
pred_mul zero t h = omega arith
pred_mul (suc q) t h = let e : suc q - 1 ≡ q = omega arith in rw e (omega arith)

pub pred-div_exact :
    (n team : ℕ)
    → 0 < team
    → (n + 1) % team ≡ 0
    → (0 < (n + 1) / team) × (n / team ≡ (n + 1) / team - 1)
pred-div_exact n team h r =
    let some_left = pos_of_mul ((n + 1) / team) team n (omega (arith, div-add-mod' (n + 1) team)) in
    (
      some_left,
      div-pred n team ((n + 1) / team - 1)
          (omega (arith, div-add-mod' (n + 1) team, pred_mul ((n + 1) / team) team some_left))
          (omega (arith, div-add-mod' (n + 1) team, pred_mul ((n + 1) / team) team some_left)),
    )

-- The adjusted quotient is the quotient of the predecessor.
adjusted :
    (n team : ℕ)
    → 0 < team
    → n + 1 < 2 ^ 31
    → add int32
        (pos ((n + 1) / team))
        (if eqb_ℤ (pos ((n + 1) % team)) (pos 0) then negsuc 0 else pos 0)
      ≡ pos (n / team)
adjusted n team h s = elim (ℕ_discrete ((n + 1) % team) 0) [
  | yes e ↦ ground (
    arith,
    pred-div_exact n team h e,
    add_minus_one ((n + 1) / team),
    div-mul-le_self (n + 1) team,
  )
  | no ne ↦ ground (arith, pred-div n team h ne, add-pos ((n + 1) / team) 0)
]

-- What has to fit an `int` on the way.
record Sizes (span i team gtid : ℕ) : Type 0 where
  ends : block_end span i team gtid ≤ span + team * i
  starts : block_start span i team gtid ≤ span + team * i
  wide : (rounds span i team + 1) * i ≤ span + team * i
  trips : span / i + 1 ≤ span + team * i
  blocks : rounds span i team ≤ span / i
  steps : i ≤ span + team * i

sizes : (span i team gtid : ℕ) → 0 < i → gtid < team → Sizes span i team gtid
sizes span i team gtid p h = record {
  ends = omega (arith, block_end-le span i team gtid h);
  starts = omega (arith, block_end-le span i team gtid h);
  wide = omega (arith, block_end-le span i team 0 (omega arith));
  trips = omega (arith, div-le_self span i, mul_mono 1 team i (omega arith));
  blocks = div-le_self (span / i) team;
  steps = omega (arith, mul_mono 1 team i (omega arith));
}

-- The arguments of a loop that runs up from `l`, and what thread `gtid` gets for it.
abbrev pub ascending : ℤ → ℕ → Bool → ℤ → LoopArgs
ascending l span last stride = record {
  last_iter = last;
  lower = l;
  upper = l +ℤ pos span;
  stride = stride;
}

abbrev pub block_args : ℤ → ℕ → ℕ → ℕ → ℕ → ℤ → LoopArgs
block_args l span i team gtid stride = record {
  last_iter = gtid == span / i;
  lower = l +ℤ pos (block_start span i team gtid);
  upper =
      l +ℤ pos (if ltb span (block_end span i team gtid) then span else block_end span i team gtid);
  stride = stride;
}

module _ (l : ℤ) (span i team gtid : ℕ) (last : Bool) (stride : ℤ) (f : Fits l span i team)
    (g : gtid < team) (z : Sizes span i team gtid) where
  static_block-Fits :
      static_block int32 int32 team gtid
        (pos i)
        (ascending l span last stride)
        (pos (span / i + 1))
        (if eqb_ℤ (pos ((span / i + 1) % team)) (pos 0) then negsuc 0 else pos 0)
      ≡ some (block_args l span i team gtid stride)
  unfolding static_block
  static_block-Fits =
      rw
        (
          div?-pos (span / i + 1) team f.threads (omega arith),
          adjusted (span / i) team f.threads (omega arith),
        )
        (rw
          (
            add-pos (rounds span i team) 1 (omega arith),
            mul-pos (rounds span i team + 1) i (omega arith),
            norm-pos ((rounds span i team + 1) * i) (omega arith),
            mul-pos (rounds span i team) i (omega arith),
            norm-pos (rounds span i team * i) (omega arith),
            mul-pos gtid ((rounds span i team + 1) * i) (omega arith),
            sub_one (span / i + 1) (omega arith) (omega arith),
          )
          (rw
            (
              add_up l (block_start span i team gtid) (span + team * i) f.range z.starts f.room,
              norm_up l (block_start span i team gtid) (span + team * i) f.range z.starts f.room,
              add_more l (block_start span i team gtid) (rounds span i team * i) (span + team * i)
                  f.range z.ends f.room,
              norm_up l (block_end span i team gtid) (span + team * i) f.range z.ends f.room,
              norm_up l span (span + team * i) f.range (omega arith) f.room,
            )
            (rw
              (
                norm_up l (block_start span i team gtid) (span + team * i) f.range z.starts f.room,
                norm_up l span (span + team * i) f.range (omega arith) f.room,
                ltb_ℤ-up l span (block_end span i team gtid),
              )
              (ground arith))))

-- The block of a thread runs from its first iteration to its last, clamped to the upper bound; the
-- flag of the last iteration is set where the thread's number is the index of that iteration.
pub for_static_init_4-block :
    (l : ℤ) (span i team gtid : ℕ) (chunk : ℤ) (last : Bool) (stride : ℤ)
    → Fits l span i team
    → gtid < team
    → for_static_init_4 team gtid kmp_sch_static (pos i) chunk (ascending l span last stride)
      ≡ some (block_args l span i team gtid stride)
unfolding for_static_init_4
for_static_init_4-block l span i team gtid chunk last stride f g =
    let z : Sizes span i team gtid = sizes span i team gtid f.step g in
    rw
      (
        sub_span l span (omega arith),
        norm-pos i (omega arith),
        div?-pos span i f.step (omega arith),
      )
      (rw
        (
          add-pos (span / i) 1 (omega arith),
          norm-pos (span / i + 1) (omega arith),
          rem?-pos (span / i + 1) team f.threads (omega arith),
        )
        (static_block-Fits l span i team gtid last stride f g z))
