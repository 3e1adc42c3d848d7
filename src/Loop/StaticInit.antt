-- ===== src/Loop/StaticInit.antt =====
-- `omp_static_init` of src/loop_schedule.cpp and its four entry points: the part of a static loop
-- that one thread of a team runs.
pub mod Exact
pub mod Partition
pub mod Owner
pub mod Orphaned
pub mod LastFlag
pub mod Chunks
pub mod ChunkPartition
pub mod ChunkFlag
pub mod Limits
pub mod Examples
use hpx_mp.Base.{ℕ, ◌≡◌, refl, Bool, true, false, Option, none, some, ◌==◌, if◌then◌else◌, ◌>>=◌}
use hpx_mp.Base.Int.{
  ℤ, pos, negsuc, IntType, int32, uint32, int64, uint64, norm, add, sub, mul, div?, rem?, negate,
  ltb_ℤ, eqb_ℤ, arithmetic,
}
use hpx_mp.Loop.Schedule.{kmp_sch_static}

-- What the pointers `p_last_iter`, `p_lower`, `p_upper` and `p_stride` point to.
pub record LoopArgs : Type 0 where
  pub last_iter : Bool
  pub lower : ℤ
  pub upper : ℤ
  pub stride : ℤ

-- The branch of `kmp_sch_static`: one block for each thread.
unfoldable pub static_block : IntType → IntType → ℕ → ℕ → ℤ → LoopArgs → ℤ → ℤ → Option LoopArgs
static_block t d team_size gtid incr args trip_count adjustment = do
  blocks ← div? int32 trip_count (pos team_size)
  let stride = norm int32 (mul d (add int32 (add int32 blocks adjustment) (pos 1)) incr)
  let block_size = norm int32 (mul d (add int32 blocks adjustment) incr)
  let my_lower = norm int32 (add t args.lower (mul int32 (pos gtid) stride))
  let my_upper = add int32 my_lower block_size
  some (record args {
    last_iter = eqb_ℤ (pos gtid) (sub int32 trip_count (pos 1));
    lower = norm t my_lower;
    upper =
        if ltb_ℤ args.upper (norm t my_upper)
        then norm t (norm int32 args.upper)
        else norm t my_upper;
  })

-- The other branch, taken by every other schedule: chunks dealt out in turn.
unfoldable pub static_chunks : IntType → IntType → ℕ → ℕ → ℤ → ℤ → LoopArgs → ℤ → Option LoopArgs
static_chunks t d team_size gtid incr chunk args trip_count = do
  let offset = mul d (mul d (pos gtid) incr) chunk
  let my_lower = norm int32 (add t args.lower offset)
  let my_upper = norm int32 (sub d (add d my_lower (mul d incr chunk)) (pos 1))
  over_chunk ← rem? d trip_count (mul d (norm d (negate chunk)) incr)
  over_round ← rem? d trip_count (mul d (mul d chunk incr) (pos team_size))
  some (record {
    last_iter = eqb_ℤ (sub d trip_count over_chunk) (sub d (add d offset trip_count) over_round);
    lower = norm t my_lower;
    upper = norm t my_upper;
    stride = mul d (mul d incr chunk) (pos team_size);
  })

-- `t` and `d` are the template's T and D; the locals are `int`s. `none` is a division by zero.
unfoldable pub omp_static_init : IntType → IntType → ℕ → ℕ → ℕ → ℤ → ℤ → LoopArgs → Option LoopArgs
unfolding static_block static_chunks
omp_static_init t d team_size gtid schedtype incr chunk args = do
  steps ← div? t (sub t args.upper args.lower) (norm t incr)
  let trip_count = norm int32 (add t steps (pos 1))
  left_over ← rem? int32 trip_count (pos team_size)
  let adjustment = if eqb_ℤ left_over (pos 0) then negsuc 0 else pos 0
  if schedtype == kmp_sch_static
      then static_block t d team_size gtid incr args trip_count adjustment
      else static_chunks t d team_size gtid incr chunk args trip_count

-- The entry points that the compiler calls; the size of the team is that of `hpx_backend`.
unfoldable pub for_static_init_4 : ℕ → ℕ → ℕ → ℤ → ℤ → LoopArgs → Option LoopArgs
unfolding omp_static_init
for_static_init_4 = omp_static_init int32 int32

unfoldable pub for_static_init_4u : ℕ → ℕ → ℕ → ℤ → ℤ → LoopArgs → Option LoopArgs
unfolding omp_static_init
for_static_init_4u = omp_static_init uint32 int32

unfoldable pub for_static_init_8 : ℕ → ℕ → ℕ → ℤ → ℤ → LoopArgs → Option LoopArgs
unfolding omp_static_init
for_static_init_8 = omp_static_init int64 int64

unfoldable pub for_static_init_8u : ℕ → ℕ → ℕ → ℤ → ℤ → LoopArgs → Option LoopArgs
unfolding omp_static_init
for_static_init_8u = omp_static_init uint64 int64

abbrev loop : ℤ → ℤ → LoopArgs
loop l u = record { last_iter = false; lower = l; upper = u; stride = pos 0 }

-- Ten iterations on four threads: 0-2, 3-5, 6-8, 9.
last_block :
    for_static_init_4 4 3 kmp_sch_static (pos 1) (pos 1) (loop (pos 0) (pos 9))
    ≡ some (loop (pos 9) (pos 9))
unfolding for_static_init_4 arithmetic
last_block = refl

-- A loop that counts down: thread 0 is given all of it.
descending :
    for_static_init_4 4 0 kmp_sch_static (negsuc 0) (pos 1) (loop (pos 10) (pos 1))
    ≡ some (loop (pos 10) (pos 1))
unfolding for_static_init_4 arithmetic
descending = refl
