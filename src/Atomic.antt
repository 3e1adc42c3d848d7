-- ===== src/Atomic.antt =====
-- The routines of src/kmp_atomic.cpp: updates of one memory cell that threads make at the same time.
pub mod Serial
pub mod LockFree
pub mod Critical
pub mod Fixed
pub mod Wide
pub mod Examples
