-- ===== src/Task/Alloc.antt =====
-- `__kmpc_omp_task_alloc`: the task and, after it, the pointers to what it shares.
use hpx_mp.Base.{
  ℕ, ◌+◌, ◌-◌, ◌%◌, ◌^◌, ◌≤◌, ◌<◌, ◌≡◌, ◌≢◌, Option, none, some, ◌==◌, if◌then◌else◌, arith,
}
use hpx_mp.Base.Int.{ℤ, pos, int32, norm, ◌+ℤ◌, pos-+ℤ-pos}
use hpx_mp.Base.Int32.{norm-pos}

-- `sizeof_kmp_task_t + (-sizeof_kmp_task_t%8)` in `size_t`, converted to `int`.
unfoldable pub task_size : ℕ → ℤ
task_size sizeof_kmp_task_t =
    norm int32 (pos ((sizeof_kmp_task_t + (2 ^ 64 - sizeof_kmp_task_t) % 2 ^ 64 % 8) % 2 ^ 64))

-- The block's size and where the shared part starts in it, if there is one.
pub record Layout : Type 0 where
  pub size : ℤ
  pub shareds : Option ℤ

unfoldable pub task_alloc : ℕ → ℕ → Layout
task_alloc sizeof_kmp_task_t sizeof_shareds =
    let start = task_size sizeof_kmp_task_t in
    record {
      size = start +ℤ pos sizeof_shareds;
      shareds = if sizeof_shareds == 0 then none else some start;
    }

rounded : (s : ℕ) → s < 2 ^ 31 - 8 → (s + (2 ^ 64 - s) % 2 ^ 64 % 8) % 2 ^ 64 < 2 ^ 31
rounded s h = omega arith

-- A task of less than 2 ^ 31 - 8 bytes is rounded up to a multiple of 8, with less than 8 bytes
-- more; what it shares starts there and ends with the block.
task_alloc-layout :
    (s shared : ℕ)
    → s < 2 ^ 31 - 8
    → shared ≢ 0
    → (start : ℕ) × (s ≤ start)
      × (start < s + 8)
      × (start % 8 ≡ 0)
      × (task_alloc s shared ≡ record { size = pos (start + shared); shareds = some (pos start) })
unfolding task_alloc task_size
task_alloc-layout s shared h ne = (
  (s + (2 ^ 64 - s) % 2 ^ 64 % 8) % 2 ^ 64,
  omega arith,
  omega arith,
  omega arith,
  rw (norm-pos ((s + (2 ^ 64 - s) % 2 ^ 64 % 8) % 2 ^ 64) (rounded s h))
      (rw (pos-+ℤ-pos _ shared) (ground arith)),
)
