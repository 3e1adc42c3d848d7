-- ===== src/Region.antt =====
-- The start and the end of a parallel region and its barriers: `fork`, `fork_worker`,
-- `fork_and_sync`, `thread_setup` and `barrier_wait` of src/hpx_runtime.cpp, one step of a thread at a time.
pub mod Join
pub mod Barrier
pub mod Handshake
