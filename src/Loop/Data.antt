-- ===== src/Loop/Data.antt =====
-- `class loop_data` of src/hpx_runtime.h: one dynamically dispatched loop of a team.
use hpx_mp.Base.{ℕ, ◌≡◌, refl, List, [], ◌∷◌, ◌++◌, map, ◌==◌, if◌then◌else◌, length, replicate}
use hpx_mp.Base.Int.{ℤ, pos, int32, norm, add, sub, quot, negate, ltb_ℤ, eqb_ℤ}

pub record LoopData : Type 0 where
  pub lower : ℤ
  pub upper : ℤ
  pub stride : ℤ
  pub chunk : ℤ
  pub ordered_count : ℤ
  pub schedule_count : ℤ
  pub num_threads : ℕ
  pub schedule : ℕ
  pub total_iter : ℤ
  pub first_iter : List ℤ
  pub last_iter : List ℤ
  pub iter_count : List ℤ

unfoldable pub count_iterations : ℤ → ℤ → ℤ → ℤ
count_iterations lower upper stride =
    if eqb_ℤ stride (pos 0)
    then add int32 (sub int32 upper lower) (pos 1)
    else if ltb_ℤ (pos 0) stride
    then add int32 (norm int32 (quot (sub int32 upper lower) stride)) (pos 1)
    else add int32 (norm int32 (quot (sub int32 lower upper) (norm int32 (negate stride)))) (pos 1)

-- The constructor.
unfoldable pub loop_data : ℕ → ℤ → ℤ → ℤ → ℤ → ℕ → LoopData
loop_data nt l u s c sched = record {
  lower = l;
  upper = u;
  stride = s;
  chunk = c;
  ordered_count = pos 0;
  schedule_count = pos 0;
  num_threads = nt;
  schedule = sched;
  total_iter = count_iterations l u s;
  first_iter = replicate nt (pos 0);
  last_iter = replicate nt (pos 0);
  iter_count = replicate nt (pos 0);
}

-- The copy constructor hands the parameters of the loop to the constructor, and none of its counters.
unfoldable pub copy : LoopData → LoopData
unfolding loop_data
copy other =
    loop_data other.num_threads other.lower other.upper other.stride other.chunk other.schedule

-- `std::vector<loop_data>`: the elements, and how many fit before they are moved to new storage.
pub record LoopList : Type 0 where
  pub items : List LoopData
  pub capacity : ℕ

-- `emplace_back(loop_data(...))` constructs the new element from a temporary. A full vector copies
-- its elements into new storage first; `grow` gives its size and is the vector's.
unfoldable pub emplace_back : (ℕ → ℕ) → LoopList → LoopData → LoopList
emplace_back grow v x =
    if length v.items == v.capacity
    then record { items = map copy v.items ++ copy x ∷ []; capacity = grow v.capacity }
    else record { items = v.items ++ copy x ∷ []; capacity = v.capacity }

-- A copy of a copy is that copy.
pub copy-copy : (d : LoopData) → copy (copy d) ≡ copy d
unfolding copy
copy-copy d = refl
