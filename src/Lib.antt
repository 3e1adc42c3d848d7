-- ===== src/Lib.antt =====
-- hpxMP: an OpenMP runtime on top of HPX, behind the entry points that Clang and Intel's compiler
-- call (src/intel_hpxMP.h).
--
-- The program. A compiler turns `#pragma omp` into calls of src/intel_hpxMP.cpp. A parallel region
-- (`__kmpc_fork_call`) makes a team (`parallel_region`, src/hpx_runtime.h) of implicit tasks
-- (`omp_task_data`), one for each thread; `hpx_runtime::fork` (src/hpx_runtime.cpp) starts them.
-- The first call starts HPX (`start_backend`). A thread of a team finds the team through its task.
-- The loops of src/loop_schedule.cpp share a loop out among the team: at once
-- (`__kmpc_for_static_init_*`) or by requests (`__kmpc_dispatch_init_*`, `__kmpc_dispatch_next_*`)
-- on the team's list of loops. Explicit tasks are counted for the task that creates them and for
-- the team. src/kmp_atomic.cpp updates single memory cells.
--
-- The model.
--   Base       the shared names; tests, lists and maps; the integers and the C++ integer types,
--              whose operations wrap modulo the width (`norm`, `add`, `sub`, `mul`, `div?`,
--              `rem?`).
--   Loop       src/loop_schedule.cpp. Loop/StaticInit is `omp_static_init` with its four entry
--              points, Loop/Data is `loop_data` and the vector of them, Loop/Dispatch is
--              `scheduler_init` and `kmp_next`. A template's T and D are arguments of `IntType`;
--              what its pointers point to is `LoopArgs`. `none` is a division by zero or an index
--              outside a vector. How far a vector grows is the parameter `grow`. Below StaticInit:
--              Exact and Chunks compute the result in exact numbers where it fits an `int` (`Fits`,
--              `FitsChunks`); Partition and ChunkPartition are about which iterations the threads
--              run, Owner about who runs an iteration, Orphaned about a loop in a function that a
--              region calls, LastFlag and ChunkFlag about the flag of the last iteration, Limits
--              about the 64-bit entry point. Below Dispatch: Dynamic and Requests are about one
--              request and a list of them, Share about what they run, Static about the schedules
--              that `kmp_next` divides as `omp_static_init` does, Chunked, Rounds and RoundRobin
--              about the static chunked ones, Init about `scheduler_init`, Nowait about threads that
--              are a loop ahead, Descending about loops that count down. Loop/Ordered is
--              `__kmpc_ordered`.
--   Team       src/hpx_runtime.h and src/icv-vars.h: the team, the task and the control variables.
--              Team/Threads is the number of threads (`set_threads_requested`, `fork` and the
--              functions of src/intel_hpxMP.cpp), Team/Dynamic the functions on its adjustment,
--              Team/Number the number of a thread (`__kmpc_global_thread_num`, `__kmpc_master`),
--              Team/ForkCall is `__kmpc_fork_call`, Team/Single is `__kmpc_single`, Team/Reduce is
--              `__kmpc_reduce`, with Whole about all the threads of a team and End about the calls
--              that end it.
--   Task       Task/Alloc is `__kmpc_omp_task_alloc`; Task/Counters is the counting in
--              `create_task`, `create_df_task`, `task_setup` and `task_wait`, with Accounting about
--              what it counts; Task/Depends is the map of dependences in `create_df_task`,
--              Task/Group the task groups (`start_taskgroup`, `end_taskgroup`), Task/Current what
--              `get_task_data` finds in a thread that runs tasks, Task/Thunk the memory of a task
--              from the calls that start it to `task_setup`, with Ends about its end. Task/Future is
--              the build with FUTURIZE_TASKS: `create_future_task` and what it gives to `dataflow`,
--              on blocks of memory, with Inputs about the copies of its arguments and Result about
--              what the future of a task gets.
--   Atomic     src/kmp_atomic.cpp. Atomic/Serial says what an atomic update is. Atomic/LockFree is
--              the routines without a lock, a step of a thread at a time, and Atomic/Critical those
--              under a lock, with Capture about those that also capture a value, Words about a cell
--              that is read and written a word at a time, and MinMax and Logical about the maximum,
--              the minimum, `&&` and `||` that capture under it; an interleaving is the list of the
--              threads that take a step. Atomic/Fixed is the tables for the integer types, with
--              Capture about the minimum and maximum that capture and Typed about updates that
--              stay within one type, and Atomic/Wide those for the others.
--   Region     the start and the end of a parallel region in src/hpx_runtime.cpp, a step of a
--              thread at a time. Region/Join is the end of `thread_setup` and the loop of
--              `fork_worker` in the build with OMP_COMPLIANT, with Joined about what is past when
--              the loop ends and Lost about the notification; Region/Handshake is `fork` outside HPX and `fork_and_sync`.
--              Region/Barrier is `barrier_wait`, with Passed about the tasks of a team whose
--              threads wait, and Backoff about the pauses of the loops.
--   Start      `start_backend` (src/intel_hpxMP.cpp), the constructor of `hpx_runtime` and
--              `start_hpx` (src/hpx_runtime.cpp). Start/Number is `atoi`, Start/Argv the arguments
--              that HPX is started with, Start/Threads the number of threads that the first region
--              gets, Start/Wait `start_hpx` against `wait_for_startup`, a step of a thread at a
--              time, with Returns about its end.
--   Lock       src/intel_hpxMP.cpp. Lock is `omp_*_lock` and `__kmpc_*_lock` on a store of locks,
--              with Families as one name for the four variants of a call, Effect about a call that
--              returns, and Exclusive and Held about threads that use locks; Lock/Critical is
--              `__kmpc_critical`.
--   Private    Private/Copy is `__kmpc_copyprivate`, with Single about a `single` region before it;
--              Private/Cached is `__kmpc_threadprivate_cached` by the threads of one team, with Same
--              about the pointers that it returns.
--   Tool       src/ompt_hpx-general.cpp with the tables of src/ompt.h and
--              src/ompt-event-specific.h: Tool/Callbacks is `ompt_set_callback`, Tool/Start is
--              `ompt_pre_init` and `ompt_post_init`, Tool/UniqueId is `ompt_get_unique_id`,
--              Tool/Region the calls to a tool in `thread_setup` and `fork`, with Heard about what
--              a tool hears of a region.
-- Each part has a module Examples. HPX's condition variable (`ConditionVariable`), spinlock
-- (`Spinlock`) and barrier (`Barrier`) are records of operations and documented laws, and
-- parameters of what uses them; so are a tool, the compiler's `cpy_func`, the routine of a task,
-- which worker of HPX runs a thread of a team, and what Boost makes of a text. A thread that waits
-- for a lock makes no step.
--
-- Bounds. The theorems on loops take a loop that ascends and leaves room for one more round of the
-- team (or request) below the greatest `int`: the code's own arithmetic goes that far. Loops over
-- the requests, steps and events are by recursion on the list of them; no fuel is used. Numbers of
-- threads, levels and loops are natural numbers without an upper bound; the counters of tasks are
-- integers without one.
--
-- Not modelled. What HPX does when it is started and when it ends, its executors and its futures
-- are the library's: a future is the value that it gets. So the branches of OMP_COMPLIANT that wait
-- for executors are left out, as are `fini_runtime` and the loop of `fork_worker` on the tasks of
-- the team in the build without OMP_COMPLIANT. The parts of `__kmpc_reduce` and
-- `__kmpc_copyprivate` between barriers are functions of their own. An assignment of floating-point
-- or complex numbers is a parameter on bits. A signed overflow in an atomic update, which is
-- undefined in C++, wraps as the processor does it. Which lock a branch for the GNU mode takes is
-- left out; in a theorem on a lock all accesses of the cell take the same. The types that
-- src/ompt.h and src/ompt-internal.h declare for tools, src/asm_functions.s, tests and examples are
-- left out.
pub mod Base
pub mod Atomic
pub mod Loop
pub mod Task
pub mod Team
pub mod Region
pub mod Lock
pub mod Private
pub mod Tool
pub mod Start
