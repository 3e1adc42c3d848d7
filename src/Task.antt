-- ===== src/Task.antt =====
-- Explicit tasks: their memory (`__kmpc_omp_task_alloc` of src/intel_hpxMP.cpp) and the counters
-- that `taskwait` and the barrier look at, the map of dependences, task groups, the data that an
-- HPX thread finds, and tasks on futures (src/hpx_runtime.cpp).
pub mod Alloc
pub mod Counters
pub mod Depends
pub mod Group
pub mod Current
pub mod Future
pub mod Thunk
pub mod Examples
