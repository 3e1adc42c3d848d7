-- ===== src/Private.antt =====
-- Data of which every thread has its own: `__kmpc_copyprivate` and `__kmpc_threadprivate_cached` of
-- src/intel_hpxMP.cpp.
pub mod Copy
pub mod Single
pub mod Cached
pub mod Examples
