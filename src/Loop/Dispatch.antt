-- ===== src/Loop/Dispatch.antt =====
-- `scheduler_init` and `kmp_next` of src/loop_schedule.cpp: loops that hand out their iterations on
-- request.
pub mod Dynamic
pub mod Requests
pub mod Share
pub mod Init
pub mod Static
pub mod Chunked
pub mod Rounds
pub mod RoundRobin
pub mod Nowait
pub mod Descending
pub mod Examples
use hpx_mp.Base.{
  ℕ, zero, suc, ◌-◌, ◌/◌, ◌%◌, Bool, true, false, Option, none, some, List, ◌==◌, ltb, ◌||◌,
  if◌then◌else◌, ◌>>=◌, length, get_elem?, set,
}
use hpx_mp.Base.Int.{
  ℤ, pos, IntType, int32, uint32, int64, uint64, norm, add, sub, mul, div?, ltb_ℤ, eqb_ℤ,
}
use hpx_mp.Loop.Schedule.{
  kmp_sch_lower, kmp_sch_static_chunked, kmp_sch_static, kmp_sch_dynamic_chunked,
  kmp_sch_guided_chunked, kmp_sch_runtime, kmp_sch_static_greedy, kmp_ord_lower,
  kmp_ord_static_chunked, kmp_ord_static, kmp_ord_dynamic_chunked, kmp_ord_guided_chunked,
  kmp_ord_runtime,
}
use hpx_mp.Loop.Data.{LoopData, loop_data, emplace_back}
use hpx_mp.Loop.StaticInit.{LoopArgs, omp_static_init}
use hpx_mp.Team.{ParallelRegion, OmpTaskData}

-- What the compiler passes to `__kmpc_dispatch_init_*`.
pub record LoopRequest : Type 0 where
  pub schedtype : ℕ
  pub lower : ℤ
  pub upper : ℤ
  pub stride : ℤ
  pub chunk : ℤ

-- `kmp_ord_lower` is the bit 64.
unfoldable pub plain_schedule : ℕ → ℕ
plain_schedule s = if s / kmp_ord_lower % 2 == 1 then s - (kmp_ord_lower - kmp_sch_lower) else s

unfoldable pub one_if_zero : ℤ → ℤ
one_if_zero a = if eqb_ℤ a (pos 0) then pos 1 else a

-- The parameters of the constructor of `loop_data` are `int`s.
unfoldable pub requested_loop : ℕ → LoopRequest → LoopData
unfolding plain_schedule one_if_zero loop_data
requested_loop num_threads q =
    loop_data num_threads (norm int32 q.lower) (norm int32 q.upper)
      (norm int32 (one_if_zero q.stride)) (norm int32 (one_if_zero q.chunk))
      (plain_schedule q.schedtype)

-- `v[i] = a`: outside the vector it is undefined.
unfoldable pub write : List ℤ → ℕ → ℤ → Option (List ℤ)
write v i a = if ltb i (length v) then some (set v i a) else none

-- A change of the loop at an index of the list.
unfoldable pub store_loop : ParallelRegion → ℕ → LoopData → ParallelRegion
store_loop team i d = record team {
  loop_list = record team.loop_list { items = set team.loop_list.items i d };
}

-- The first thread to come to a loop adds it to the list, under `loop_mtx`.
unfoldable pub create_loop : (ℕ → ℕ) → ParallelRegion → OmpTaskData → LoopRequest → ParallelRegion
create_loop grow team task q =
    if length team.loop_list.items == task.loop_num
    then record team {
      loop_list = emplace_back grow team.loop_list (requested_loop team.num_threads q);
    }
    else team

unfoldable pub reset_thread : LoopData → ℕ → Option LoopData
unfolding write
reset_thread d gtid = do
  first ← write d.first_iter gtid (pos 0)
  last ← write d.last_iter gtid (pos 0)
  count ← write d.iter_count gtid (pos 0)
  some (record d { first_iter = first; last_iter = last; iter_count = count })

unfoldable pub scheduler_init :
    (ℕ → ℕ) → ℕ → ParallelRegion → OmpTaskData → LoopRequest → Option (ParallelRegion × OmpTaskData)
scheduler_init grow gtid team task q = do
  let team' = create_loop grow team task q
  d ← get_elem? team'.loop_list.items task.loop_num
  d' ← reset_thread d gtid
  some (store_loop team' task.loop_num d', record task { loop_num = suc task.loop_num })

-- What a request returns: the loop, the values behind the pointers, and whether there is work.
pub record Served : Type 0 where
  pub loop : LoopData
  pub args : LoopArgs
  pub work : Bool

-- `kmp_sch_static_greedy`, `kmp_sch_static` and `kmp_ord_static`: the whole block at once.
unfoldable pub next_static : IntType → IntType → ℕ → ℕ → LoopData → LoopArgs → Option Served
unfolding omp_static_init write
next_static t d team_size gtid l args = do
  count ← get_elem? l.iter_count gtid
  if ltb_ℤ (pos 0) count then some (record { loop = l; args = args; work = false }) else do
    counts ← write l.iter_count gtid (pos 1)
    block ← omp_static_init t d team_size gtid kmp_sch_static l.stride l.chunk (record {
      last_iter = args.last_iter;
      lower = norm t l.lower;
      upper = norm t l.upper;
      stride = norm d l.stride;
    })
    first ← div? t block.lower (norm t block.stride)
    last ← div? t block.upper (norm t block.stride)
    firsts ← write l.first_iter gtid (norm int32 first)
    lasts ← write l.last_iter gtid (norm int32 last)
    some (record {
      loop = record l {
        schedule_count = add int32 l.schedule_count (pos 1);
        iter_count = counts;
        first_iter = firsts;
        last_iter = lasts;
      };
      args = block;
      work = true;
    })

-- `kmp_sch_static_chunked` and `kmp_ord_static_chunked`.
unfoldable pub next_static_chunked : IntType → IntType → ℕ → LoopData → LoopArgs → Option Served
unfolding write
next_static_chunked t d gtid l args = do
  loop_id ← get_elem? l.iter_count gtid
  let first = add int32 (pos gtid) (mul int32 (mul int32 loop_id l.stride) (pos l.num_threads))
  firsts ← write l.first_iter gtid first
  lasts ← write l.last_iter gtid (add int32 first l.stride)
  counts ← write l.iter_count gtid (add int32 loop_id (pos 1))
  let round = add d (pos gtid) (mul d (mul d (pos l.num_threads) l.stride) loop_id)
  let lower = add t l.lower (mul d l.chunk round)
  let upper = add t lower (mul d l.stride (sub int32 l.chunk (pos 1)))
  let bound = norm t l.upper
  some (record {
    loop = record l {
      schedule_count = add int32 l.schedule_count l.chunk;
      first_iter = firsts;
      last_iter = lasts;
      iter_count = counts;
    };
    args = record {
      last_iter = args.last_iter || eqb_ℤ upper bound;
      lower = lower;
      upper = if ltb_ℤ bound upper then bound else upper;
      stride = norm d l.stride;
    };
    work = if ltb_ℤ bound lower then false else true;
  })

-- The dynamic, guided and runtime schedules: the next chunk that nobody has.
unfoldable pub next_dynamic : IntType → IntType → ℕ → LoopData → LoopArgs → Option Served
unfolding write
next_dynamic t d gtid l args = do
  let loop_id = l.schedule_count
  let lower = add t l.lower (mul d (mul d loop_id l.stride) l.chunk)
  let upper = add t lower (mul d (sub int32 l.chunk (pos 1)) l.stride)
  let bound = norm t l.upper
  firsts ← write l.first_iter gtid loop_id
  lasts ← write l.last_iter gtid (add int32 loop_id l.chunk)
  let past = ltb_ℤ bound lower
  let over = ltb_ℤ bound upper
  some (record {
    loop = record l {
      schedule_count = add int32 loop_id (pos 1);
      first_iter = firsts;
      last_iter = lasts;
    };
    args = record {
      last_iter = if past then false else over;
      lower = lower;
      upper = if past then upper else if over then bound else upper;
      stride = norm d l.stride;
    };
    work = if past then false else true;
  })

-- The `switch` on the schedule; another schedule has no work.
unfoldable pub next_of_loop : IntType → IntType → ℕ → ℕ → LoopData → LoopArgs → Option Served
next_of_loop t d team_size gtid l args =
    let s = l.schedule in
    if s == kmp_sch_static_greedy || (s == kmp_sch_static || s == kmp_ord_static)
    then next_static t d team_size gtid l args
    else if s == kmp_sch_static_chunked || s == kmp_ord_static_chunked
    then next_static_chunked t d gtid l args
    else if s == kmp_sch_guided_chunked
        || (s == kmp_sch_dynamic_chunked
            || (s == kmp_ord_dynamic_chunked
                || (s == kmp_ord_guided_chunked || (s == kmp_sch_runtime || s == kmp_ord_runtime))))
    then next_dynamic t d gtid l args
    else some (record { loop = l; args = args; work = false })

-- The index of the task's latest loop; before the first one there is none.
unfoldable pub current_loop : OmpTaskData → Option ℕ
current_loop task = elim task.loop_num [ zero ↦ none | suc i ↦ some i ]

unfoldable pub kmp_next :
    IntType
    → IntType
    → ℕ
    → ParallelRegion
    → OmpTaskData
    → LoopArgs
    → Option (ParallelRegion × LoopArgs × Bool)
kmp_next t d gtid team task args = do
  i ← current_loop task
  l ← get_elem? team.loop_list.items i
  s ← next_of_loop t d team.num_threads gtid l args
  some (store_loop team i s.loop, s.args, s.work)

-- The entry points that the compiler calls.
unfoldable pub dispatch_next_4 :
    ℕ → ParallelRegion → OmpTaskData → LoopArgs → Option (ParallelRegion × LoopArgs × Bool)
dispatch_next_4 = kmp_next int32 int32

unfoldable pub dispatch_next_4u :
    ℕ → ParallelRegion → OmpTaskData → LoopArgs → Option (ParallelRegion × LoopArgs × Bool)
dispatch_next_4u = kmp_next uint32 int32

unfoldable pub dispatch_next_8 :
    ℕ → ParallelRegion → OmpTaskData → LoopArgs → Option (ParallelRegion × LoopArgs × Bool)
dispatch_next_8 = kmp_next int64 int64

unfoldable pub dispatch_next_8u :
    ℕ → ParallelRegion → OmpTaskData → LoopArgs → Option (ParallelRegion × LoopArgs × Bool)
dispatch_next_8u = kmp_next uint64 int64
