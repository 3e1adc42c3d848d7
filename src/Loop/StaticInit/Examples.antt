-- ===== src/Loop/StaticInit/Examples.antt =====
-- Concrete loops for the theorems on `omp_static_init`.
use hpx_mp.Base.{ℕ, ◌⊎◌, ◌≢◌, ◌+◌, ◌%◌, ◌*◌, ◌/◌, ◌<◌, ◌≤◌, ◌≡◌, refl, ◌↔◌, true, false, arith}
use hpx_mp.Base.Int.{pos, ◌+ℤ◌, +ℤ_parts, arithmetic}
use hpx_mp.Loop.StaticInit.Exact.{Fits, for_static_init_4-block, block_args}
use hpx_mp.Loop.StaticInit.Partition.{RunBy}
use hpx_mp.Loop.StaticInit.Owner.{
  FallsTo, block_owner, chunk_owner, static_block-owner, static_chunks-owner,
}
use hpx_mp.Loop.StaticInit.LastFlag.{last_iter-flag}
use hpx_mp.Loop.StaticInit.Orphaned.{IsRun, OnWorker, orphaned_loop-IsRun}
use hpx_mp.Team.Number.{kmpc_master}
use hpx_mp.Loop.StaticInit.Chunks.{FitsChunks, for_static_init_4-chunks, chunk_args}
use hpx_mp.Loop.StaticInit.ChunkPartition.{ChunkRunBy}
use hpx_mp.Loop.Schedule.{kmp_sch_static}
use hpx_mp.Loop.StaticInit.{LoopArgs, for_static_init_8, omp_static_init, static_block}
use hpx_mp.Loop.StaticInit.Limits.{IsNarrow, for_static_init_8-IsNarrow}
use hpx_mp.Loop.StaticInit.ChunkFlag.{chunk_flag-last}

-- Ten iterations from 5 on, on four threads: 5-7, 8-10, 11-13, 14.
ten : Fits (pos 5) 9 1 4
ten = record {
  range = (omega arith, omega arith);
  small = omega arith;
  room = omega (arith, +ℤ_parts (pos 5) (pos 13));
  step = omega arith;
  threads = omega arith;
}

-- Iteration 9 is that of thread 3.
static_block-owner_example :
    (block_owner 9 1 4 9 < 4)
    × (RunBy (pos 5) 9 1 4 (pos 1) 3 (pos 14) ↔ FallsTo (block_owner 9 1 4) (pos 5) 9 1 3 (pos 14))
static_block-owner_example = static_block-owner (pos 1) ten 9 3 (pos 14) (omega arith) (omega arith)

-- Three iterations on four threads.
three : Fits (pos 0) 2 1 4
three = record {
  range = (omega arith, omega arith);
  small = omega arith;
  room = omega (arith, +ℤ_parts (pos 0) (pos 6));
  step = omega arith;
  threads = omega arith;
}

last_iter-flag_example :
    ((2 / 1 < 4)
      × (((block_args (pos 0) 2 1 4 2 (pos 0)).last_iter ≡ true)
          ↔ RunBy (pos 0) 2 1 4 (pos 1) 2 (pos 0 +ℤ pos (2 / 1 * 1))))
    ⊎ ((4 ≤ 2 / 1) × ((block_args (pos 0) 2 1 4 2 (pos 0)).last_iter ≡ false))
last_iter-flag_example =
    last_iter-flag (pos 1) three (omega arith)
      (for_static_init_4-block (pos 0) 2 1 4 2 (pos 1) false (pos 0) three (omega arith))

-- Chunks of two on three threads: ten iterations fill the chunks, eleven do not.
in_twos : FitsChunks (pos 0) 9 1 2 3
in_twos = record {
  range = (omega arith, omega arith);
  small = omega arith;
  room = omega (arith, +ℤ_parts (pos 0) (pos 16));
  step = omega arith;
  chunks = omega arith;
  threads = omega arith;
}

-- Thread 1 has 2, 3, 8 and 9.
static_chunks-owner_example :
    (chunk_owner 2 3 9 < 3)
    × (ChunkRunBy (pos 0) 9 1 2 3 1 (pos 9) ↔ FallsTo (chunk_owner 2 3) (pos 0) 9 1 1 (pos 9))
static_chunks-owner_example = static_chunks-owner in_twos 9 1 (pos 9) (omega arith) (omega arith)

chunk_flag-last_example :
    (((9 + 1) % 2 ≢ 0)
      × (((chunk_args (pos 0) 9 1 2 3 1).last_iter ≡ true)
          ↔ ChunkRunBy (pos 0) 9 1 2 3 1 (pos 0 +ℤ pos 9)))
    ⊎ (((9 + 1) % 2 ≡ 0)
        × (((chunk_args (pos 0) 9 1 2 3 1).last_iter ≡ false)
            ⊎ (¬ ChunkRunBy (pos 0) 9 1 2 3 1 (pos 0 +ℤ pos 9))))
chunk_flag-last_example =
    chunk_flag-last in_twos (omega arith) (omega arith)
      (for_static_init_4-chunks 1 in_twos (omega arith))

-- The second half of a loop from 2 ^ 32 on, on two threads, begins at 2.
abbrev beyond : LoopArgs
beyond = record { last_iter = false; lower = pos 2; upper = pos 3; stride = pos 0 }

for_static_init_8-IsNarrow_example : IsNarrow beyond
unfolding for_static_init_8 omp_static_init static_block arithmetic
for_static_init_8-IsNarrow_example =
    for_static_init_8-IsNarrow 2 1 kmp_sch_static (pos 1) (pos 1)
      (record { last_iter = false; lower = pos 4294967296; upper = pos 4294967299; stride = pos 0 })
      beyond refl

-- The threads of the team on two workers.
abbrev two_workers : ℕ → ℕ
two_workers j = j % 2

orphaned_loop-IsRun_example :
    (IsRun two_workers 2 (pos 1) ten (λ j. omega arith) (pos 5 +ℤ pos (9 * 1))
      ↔ OnWorker two_workers 2 (pos 1) ten (λ j. omega arith) (block_owner 9 1 4 9))
    × ((block_owner 9 1 4 9 < 2)
        ⊎ (¬ IsRun two_workers 2 (pos 1) ten (λ j. omega arith) (pos 5 +ℤ pos (9 * 1))))
    × ((kmpc_master two_workers 2 ≡ 1) ↔ (two_workers 2 ≡ 0))
orphaned_loop-IsRun_example =
    orphaned_loop-IsRun two_workers 2 (pos 1) ten (λ j. omega arith) 9 2 (omega arith) (omega arith)
