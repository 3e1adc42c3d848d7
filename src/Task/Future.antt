-- ===== src/Task/Future.antt =====
-- Tasks whose dependences are futures (`FUTURIZE_TASKS`): `create_future_task` and the functions that
-- it hands to HPX's `dataflow`, of src/hpx_runtime.cpp, and `__kmpc_future_cached` of
-- src/intel_hpxMP.cpp. A future is the value that it gets.
pub mod Inputs
pub mod Result
pub mod Examples
use hpx_mp.Base.{
  ℕ, zero, suc, ◌+◌, ◌≡◌, ◌≢◌, Bool, true, false, Option, none, some, List, [], ◌∷◌, ◌>>=◌, ◌&&◌,
  leb, length, set, replicate, update, if◌then◌else◌, ◌==◌,
}

-- The bytes of each block of memory; a block that does not exist, or no longer, has none.
abbrev pub Heap : Type 0
Heap = ℕ → Option (List ℕ)

-- `raw_data`: where the data is, and its size.
pub record RawData : Type 0 where
  pub block : ℕ
  pub size : ℕ

-- `kmp_task_t`: the block of the task, whose bytes are those of `shareds`, and what its routine does.
pub record KmpTask : Type 0 where
  pub block : ℕ
  pub routine : Heap → Option Heap

abbrev pub take : ℕ → List ℕ → List ℕ
take zero l = []
take (suc n) [] = []
take (suc n) (b ∷ bs) = b ∷ take n bs

-- The bytes of a list written over those of another from an index on.
abbrev pub paste : List ℕ → ℕ → List ℕ → List ℕ
paste l k [] = l
paste l k (b ∷ bs) = paste (set l k b) (suc k) bs

-- `memcpy`, to an offset in a block: outside of the blocks it is undefined.
unfoldable pub memcpy : ℕ → ℕ → RawData → Heap → Option Heap
memcpy block offset arg h = do
  to ← h block
  from ← h arg.block
  if leb (offset + arg.size) (length to) && leb arg.size (length from)
      then some (update h block (some (paste to offset (take arg.size from))))
      else none

abbrev pub delete : ℕ → Heap → Heap
delete block h = update h block none

-- The data is copied in, and not out again.
unfoldable pub future_wrapper : KmpTask → RawData → Heap → Option (RawData × Heap)
unfolding memcpy
future_wrapper task arg1 h = do
  h1 ← memcpy task.block 0 arg1 h
  h2 ← task.routine h1
  some (arg1, delete task.block h2)

-- The last line of `future_wrapper2` and of `future_wrapper3`, after `delete[]`.
unfoldable pub copy_out : KmpTask → RawData → Heap → Option (RawData × Heap)
unfolding memcpy
copy_out task arg1 h = do
  h' ← memcpy arg1.block 0 (record { block = task.block; size = arg1.size }) h
  some (arg1, h')

unfoldable pub inputs2 : KmpTask → RawData → RawData → Heap → Option Heap
unfolding memcpy
inputs2 task arg1 arg2 h = do h1 ← memcpy task.block 0 arg1 h; memcpy task.block arg1.size arg2 h1

unfoldable pub future_wrapper2 : KmpTask → RawData → RawData → Heap → Option (RawData × Heap)
unfolding inputs2 copy_out
future_wrapper2 task arg1 arg2 h = do
  h1 ← inputs2 task arg1 arg2 h
  h2 ← task.routine h1
  copy_out task arg1 (delete task.block h2)

unfoldable pub inputs3 : KmpTask → RawData → RawData → RawData → Heap → Option Heap
unfolding memcpy
inputs3 task arg1 arg2 arg3 h = do
  h1 ← memcpy task.block 0 arg1 h
  h2 ← memcpy task.block arg1.size arg2 h1
  memcpy task.block (arg1.size + arg3.size) arg3 h2

unfoldable pub future_wrapper3 :
    KmpTask → RawData → RawData → RawData → Heap → Option (RawData × Heap)
unfolding inputs3 copy_out
future_wrapper3 task arg1 arg2 arg3 h = do
  h1 ← inputs3 task arg1 arg2 arg3 h
  h2 ← task.routine h1
  copy_out task arg1 (delete task.block h2)

-- A dependence: the variable that holds the future, and its flag `out`.
pub record FutureDep : Type 0 where
  pub base_addr : ℕ
  pub out : Bool

-- The future of the last dependence with the flag; without one the pointer is not set.
abbrev pub output_future : List FutureDep → Option ℕ
output_future [] = none
output_future (d ∷ ds) = elim (output_future ds) [
  | some a ↦ some a
  | none ↦ if d.out then some d.base_addr else none
]

-- `*(output_future) = dataflow(...)`
abbrev pub assign_output :
    Option ℕ → (ℕ → RawData) → Option (RawData × Heap) → Option ((ℕ → RawData) × Heap)
assign_output output futures result = do a ← output; (v, h) ← result; some (update futures a v, h)

-- With four dependences or more, or none, there is only a message.
unfoldable pub create_future_task :
    KmpTask → List FutureDep → (ℕ → RawData) → Heap → Option ((ℕ → RawData) × Heap)
unfolding future_wrapper future_wrapper2 future_wrapper3
create_future_task task (a ∷ []) futures h =
    assign_output (output_future (a ∷ [])) futures (future_wrapper task (futures a.base_addr) h)
create_future_task task (a ∷ b ∷ []) futures h =
    assign_output (output_future (a ∷ b ∷ [])) futures
      (future_wrapper2 task (futures a.base_addr) (futures b.base_addr) h)
create_future_task task (a ∷ b ∷ c ∷ []) futures h =
    assign_output (output_future (a ∷ b ∷ c ∷ [])) futures
      (future_wrapper3 task (futures a.base_addr) (futures b.base_addr) (futures c.base_addr) h)
create_future_task task [] futures h = some (futures, h)
create_future_task task (a ∷ b ∷ c ∷ d ∷ ds) futures h = some (futures, h)

-- `__kmpc_future_cached`, with the block that `new char[size]{0}` gives.
unfoldable pub future_cached : ℕ → ℕ → Option RawData → Heap → Option RawData × Heap
future_cached fresh size none h =
    (some (record { block = fresh; size = size }), update h fresh (some (replicate size 0)))
future_cached fresh size (some cache) h = (some cache, h)
