-- ===== src/Region/Handshake.antt =====
-- `hpx_runtime::fork` on a thread that is not one of HPX's, and `fork_and_sync`, both of
-- src/hpx_runtime.cpp: the caller waits for the thread that runs `fork_worker`. The mutex and the
-- condition variable are those of C++; a wait may end without a notification.
mod Returns
pub mod Examples
use hpx_mp.Base.{ℕ, zero, suc, ◌+◌, ◌*◌, ◌≡◌, Bool, true, false}

-- `fork_and_sync`: in `fork_worker`, before the lock, at `running = true`, at `notify_all`, at the
-- end of the lock's scope, and past it.
pub data WorkerPc : Type 0 where
  forking acquiring storing notifying releasing over : WorkerPc

-- `fork`: before the lock, at the test of the loop, in `cond.wait`, woken but without the lock,
-- and past the lock's scope.
pub data CallerPc : Type 0 where
  entering testing asleep woken returned : CallerPc

pub data Holder : Type 0 where
  nobody the_worker the_caller : Holder

pub record Handshake : Type 0 where
  pub running : Bool
  pub fork_mtx : Holder
  pub worker : WorkerPc
  pub caller : CallerPc

unfoldable pub registered : Handshake
registered = record { running = false; fork_mtx = nobody; worker = forking; caller = entering }

-- `notify_all`
abbrev pub wake : CallerPc → CallerPc
wake entering = entering
wake testing = testing
wake asleep = woken
wake woken = woken
wake returned = returned

-- `while (!running) cond.wait(lk)`, with the lock held; both ways out release it.
abbrev pub test : Bool → CallerPc
test true = returned
test false = asleep

-- What a thread does next, where it does not wait.
pub data Step (s : Handshake) : Handshake → Type 0 where
  forks : s.worker ≡ forking → Step s (record s { worker = acquiring })
  acquires :
      s.worker ≡ acquiring
      → s.fork_mtx ≡ nobody
      → Step s (record s { worker = storing; fork_mtx = the_worker })
  stores : s.worker ≡ storing → Step s (record s { worker = notifying; running = true })
  notifies : s.worker ≡ notifying → Step s (record s { worker = releasing; caller = wake s.caller })
  releases : s.worker ≡ releasing → Step s (record s { worker = over; fork_mtx = nobody })
  enters :
      s.caller ≡ entering
      → s.fork_mtx ≡ nobody
      → Step s (record s { caller = testing; fork_mtx = the_caller })
  tests : s.caller ≡ testing → Step s (record s { caller = test s.running; fork_mtx = nobody })
  relocks :
      s.caller ≡ woken
      → s.fork_mtx ≡ nobody
      → Step s (record s { caller = testing; fork_mtx = the_caller })

pub data Reach : Handshake → Type 0 where
  start : Reach registered
  later : {s t : Handshake} → Reach s → Step s t → Reach t
  spurious : {s : Handshake} → Reach s → s.caller ≡ asleep → Reach (record s { caller = woken })

-- A number of steps, with no wait that ends by itself.
pub data Run (s : Handshake) : ℕ → Handshake → Type 0 where
  none_yet : Run s 0 s
  one_more : {k : ℕ} {t u : Handshake} → Run s k t → Step t u → Run s (suc k) u
