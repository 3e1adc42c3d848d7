-- ===== src/Start/Wait.antt =====
-- The end of `start_hpx` against `wait_for_startup`, which HPX calls when it has started, both of
-- src/hpx_runtime.cpp. The mutex and the condition variable are those of C++; a wait may end without a
-- notification.
pub mod Returns
pub mod Examples
use hpx_mp.Base.{ℕ, zero, suc, ◌+◌, ◌*◌, ◌≡◌, Bool, true, false}

-- `wait_for_startup`: before HPX calls it, before the lock, at `running = true`, at `notify_all`, at
-- the end of the lock's scope, and past it.
pub data StartupPc : Type 0 where
  starting acquiring storing notifying releasing over : StartupPc

-- `start_hpx`: before the lock, at the test of `running`, in `cond.wait`, woken but without the lock,
-- and past the lock's scope, where `running`, the mutex and the condition variable end.
pub data MainPc : Type 0 where
  entering testing asleep woken returned : MainPc

pub data Holder : Type 0 where
  nobody the_startup the_main : Holder

pub record Startup : Type 0 where
  pub running : Bool
  pub startup_mtx : Holder
  pub startup : StartupPc
  pub main : MainPc

unfoldable pub hpx_start : Startup
hpx_start = record { running = false; startup_mtx = nobody; startup = starting; main = entering }

-- `notify_all`
abbrev pub notify_main : MainPc → MainPc
notify_main entering = entering
notify_main testing = testing
notify_main asleep = woken
notify_main woken = woken
notify_main returned = returned

-- `if (!running) cond.wait(lk)`, with the lock held; both ways out release it.
abbrev pub if_running : Bool → MainPc
if_running true = returned
if_running false = asleep

-- Where the mutex, the condition variable and `running` still are: in the scope that `start_hpx` has
-- not left.
abbrev pub in_scope : MainPc → Bool
in_scope returned = false
in_scope entering = true
in_scope testing = true
in_scope asleep = true
in_scope woken = true

-- What a thread does next, where it does not wait; a step of `wait_for_startup` that would use what
-- is gone is undefined, and is none. After the wait there is no second test.
pub data Step (s : Startup) : Startup → Type 0 where
  starts : s.startup ≡ starting → Step s (record s { startup = acquiring })
  acquires :
      s.startup ≡ acquiring
      → in_scope s.main ≡ true
      → s.startup_mtx ≡ nobody
      → Step s (record s { startup = storing; startup_mtx = the_startup })
  stores :
      s.startup ≡ storing
      → in_scope s.main ≡ true
      → Step s (record s { startup = notifying; running = true })
  notifies :
      s.startup ≡ notifying
      → in_scope s.main ≡ true
      → Step s (record s { startup = releasing; main = notify_main s.main })
  releases :
      s.startup ≡ releasing
      → in_scope s.main ≡ true
      → Step s (record s { startup = over; startup_mtx = nobody })
  enters :
      s.main ≡ entering
      → s.startup_mtx ≡ nobody
      → Step s (record s { main = testing; startup_mtx = the_main })
  tests : s.main ≡ testing → Step s (record s { main = if_running s.running; startup_mtx = nobody })
  relocks : s.main ≡ woken → s.startup_mtx ≡ nobody → Step s (record s { main = returned })

-- Reached with a number of waits that have ended by themselves.
pub data Reach : ℕ → Startup → Type 0 where
  start : Reach 0 hpx_start
  later : {k : ℕ} {s t : Startup} → Reach k s → Step s t → Reach k t
  spurious :
      {k : ℕ} {s : Startup}
      → Reach k s
      → s.main ≡ asleep
      → Reach (suc k) (record s { main = woken })

-- A number of steps, with no wait that ends by itself.
pub data Run (s : Startup) : ℕ → Startup → Type 0 where
  none_yet : Run s 0 s
  one_more : {k : ℕ} {t u : Startup} → Run s k t → Step t u → Run s (suc k) u
