-- ===== src/Tool/Region.antt =====
-- What a tool hears of a parallel region: the calls of `thread_setup` and of `hpx_runtime::fork` in
-- src/hpx_runtime.cpp, in the order in which the threads come to them.
pub mod Heard
pub mod Examples
use hpx_mp.Base.{
  ℕ, zero, suc, ◌+◌, Bool, true, false, not, List, [], ◌∷◌, ◌++◌, ◌==◌, ◌&&◌, if◌then◌else◌, update,
  one_if,
}
use hpx_mp.Tool.Callbacks.{
  Event, thread_begin, thread_end, parallel_begin, parallel_end, event_id, Ompt, Call, not_called,
  null_call, called, call_of, fire,
}

-- `thread_setup`: before the microtask, in it, and past the last line.
pub data ThreadPc : Type 0 where
  entering working left : ThreadPc

-- With no argument the microtask is called without a word to the tool.
unfoldable pub thread_begin_call : Ompt → ℕ → Call
unfolding fire
thread_begin_call ompt argc =
    if argc == 0 then not_called else if ompt.enabled then fire thread_begin ompt else not_called

unfoldable pub thread_end_call : Ompt → Call
unfolding fire
thread_end_call ompt = fire thread_end ompt

unfoldable pub parallel_begin_call : Ompt → Call
unfolding fire
parallel_begin_call ompt = if ompt.enabled then fire parallel_begin ompt else not_called

unfoldable pub parallel_end_call : Ompt → Call
unfolding fire
parallel_end_call ompt = fire parallel_end ompt

-- An event, and what the runtime does there.
abbrev pub Log : Type 0
Log = List (Event × Call)

unfoldable pub thread_step : Ompt → ℕ → ThreadPc → ThreadPc × Log
unfolding thread_begin_call thread_end_call
thread_step ompt argc entering = (working, (thread_begin, thread_begin_call ompt argc) ∷ [])
thread_step ompt argc working = (left, (thread_end, thread_end_call ompt) ∷ [])
thread_step ompt argc left = (left, [])

-- The threads of a list take a step each, one after the other.
unfoldable pub thread_steps : Ompt → ℕ → List ℕ → (ℕ → ThreadPc) → (ℕ → ThreadPc) × Log
unfolding thread_step
thread_steps ompt argc [] pcs = (pcs, [])
thread_steps ompt argc (i ∷ is) pcs =
    let (pc, log) = thread_step ompt argc (pcs i) in
    let (pcs', rest) = thread_steps ompt argc is (update pcs i pc) in (pcs', log ++ rest)

unfoldable pub region_log : Ompt → ℕ → List ℕ → Log
unfolding thread_steps parallel_begin_call parallel_end_call
region_log ompt argc is =
    (parallel_begin, parallel_begin_call ompt)
    ∷ ((thread_steps ompt argc is (λ i. entering)).1 ++ (parallel_end, parallel_end_call ompt) ∷ [])

abbrev pub is_call : Call → Bool
is_call not_called = false
is_call null_call = true
is_call (called f) = true

-- How often an event's callback is called.
abbrev pub heard : Event → Log → ℕ
heard e [] = 0
heard e ((d, c) ∷ log) = one_if ((event_id e == event_id d) && is_call c) + heard e log
