-- ===== src/Task/Future/Result.antt =====
-- What a task that depends on futures passes on.
use hpx_mp.Base.{ℕ, ◌≡◌, ◌≢◌, Option, none, some, List, [], ◌∷◌}
use hpx_mp.Task.Future.{
  Heap, RawData, KmpTask, FutureDep, memcpy, copy_out, inputs2, inputs3, output_future,
}

-- The data of the arguments in the block of the task, where the dependences are one, two or three.
abbrev pub copied_in : KmpTask → (ℕ → RawData) → List FutureDep → Heap → Option Heap
copied_in task futures [] h = none
copied_in task futures (a ∷ []) h = memcpy task.block 0 (futures a.base_addr) h
copied_in task futures (a ∷ b ∷ []) h = inputs2 task (futures a.base_addr) (futures b.base_addr) h
copied_in task futures (a ∷ b ∷ c ∷ []) h =
    inputs3 task (futures a.base_addr) (futures b.base_addr) (futures c.base_addr) h
copied_in task futures (a ∷ b ∷ c ∷ d ∷ ds) h = none

-- All goes well up to the end of the routine: one of the dependences has the flag `out`, the data is
-- copied in, and the routine returns, and changes no other block (the data of a task is
-- `firstprivate`). The data of the first argument would fit a copy from the block of the task as the
-- routine leaves it.
pub record RunsWell (task : KmpTask) (futures : ℕ → RawData) (a : FutureDep) (more : List FutureDep)
    (h : Heap) : Type 0 where
  pub output : ℕ
  pub has_output : output_future (a ∷ more) ≡ some output
  pub given : Heap
  pub copied : copied_in task futures (a ∷ more) h ≡ some given
  pub after : Heap
  pub runs : task.routine given ≡ some after
  pub apart : (b : ℕ) → task.block ≢ b → after b ≡ given b
  pub copied_back : Heap
  pub fits : copy_out task (futures a.base_addr) after ≡ some (futures a.base_addr, copied_back)
