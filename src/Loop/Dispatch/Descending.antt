-- ===== src/Loop/Dispatch/Descending.antt =====
-- A dispatched loop that counts down.
use hpx_mp.Base.{ℕ, ◌<◌, ◌≡◌, refl, true, false, some, length, set, arith}
use hpx_mp.Base.Int.{
  ℤ, pos, ◌+ℤ◌, ◌-ℤ◌, ◌≤ℤ◌, InRange, int32, norm, add, sub, mul, norm_of_InRange, ltb_ℤ, -ℤ_parts,
  ◌*ℤ◌,
}
use hpx_mp.Loop.Data.{LoopData}
use hpx_mp.Loop.StaticInit.{LoopArgs}
use hpx_mp.Loop.Dispatch.{next_dynamic, Served}
use hpx_mp.Loop.Dispatch.Dynamic.{write-some}

-- The loop from `l` down to `u`, which nobody has asked for work yet.
pub record IsNewDown (l u : ℤ) (team_size : ℕ) (d : LoopData) : Type 0 where
  pub lower : d.lower ≡ l
  pub upper : d.upper ≡ u
  pub count : d.schedule_count ≡ pos 0
  pub firsts : length d.first_iter ≡ team_size
  pub lasts : length d.last_iter ≡ team_size

mul_zero : (a : ℤ) → mul int32 (pos 0) a ≡ pos 0
unfolding mul norm ◌*ℤ◌
mul_zero a = ground arith

add_zero : (a : ℤ) → InRange int32 a → add int32 a (pos 0) ≡ a
unfolding add norm ◌+ℤ◌
add_zero a h = ground arith

one : add int32 (pos 0) (pos 1) ≡ pos 1
unfolding add norm ◌+ℤ◌
one = refl

above : (l u : ℤ) → u ≤ℤ l -ℤ pos 1 → ltb_ℤ u l ≡ true
above l u h = ground (arith, -ℤ_parts l (pos 1))

-- Where the next chunk would begin above the upper bound.
abbrev passed_by : LoopData → LoopArgs → ℕ → ℤ → Served
passed_by d args gtid lower = record {
  loop = record d {
    schedule_count = pos 1;
    first_iter = set d.first_iter gtid (pos 0);
    last_iter = set d.last_iter gtid (add int32 (pos 0) d.chunk);
  };
  args = record {
    last_iter = false;
    lower = lower;
    upper = add int32 lower (mul int32 (sub int32 d.chunk (pos 1)) d.stride);
    stride = norm int32 d.stride;
  };
  work = false;
}

-- The first request on a loop of `int`s that counts down finds no work, whatever the chunk and the
-- stride.
pub first_request-descending :
    {l u : ℤ} {team_size : ℕ} {d : LoopData} (gtid : ℕ) (args : LoopArgs)
    → IsNewDown l u team_size d
    → InRange int32 l
    → InRange int32 u
    → u ≤ℤ l -ℤ pos 1
    → gtid < team_size
    → (s : Served) × (next_dynamic int32 int32 gtid d args ≡ some s)
      × (s.work ≡ false)
      × (s.args.lower ≡ l)
unfolding next_dynamic
first_request-descending {l} {u} {team_size} {d} gtid args w rl ru down lt = (
  passed_by d args gtid l,
  simp (w.count, w.lower, w.upper)
      (rw (mul_zero d.stride) (
        rw (mul_zero d.chunk) (
          rw (add_zero l rl, norm_of_InRange int32 u ru)
            (rw (above l u down) (
              rw
                (
                  write-some d.first_iter gtid (pos 0) (omega (arith, w.firsts)),
                  write-some d.last_iter gtid (add int32 (pos 0) d.chunk) (omega (arith, w.lasts)),
                  one,
                )
                refl))))),
  refl,
  refl,
)
