-- ===== src/Region/Handshake/Returns.antt =====
-- `fork` returns, and only when the other thread has left the mutex.
use hpx_mp.Base.{ℕ, ◌+◌, ◌*◌, ◌≤◌, ◌<◌, ◌≡◌, ◌≢◌, refl, Bool, true, false, arith, ◌⊎◌, inl, inr}
use hpx_mp.Region.Handshake.{
  WorkerPc, forking, acquiring, storing, notifying, releasing, over, CallerPc, entering, testing,
  asleep, woken, returned, Holder, nobody, the_worker, the_caller, Handshake, registered, Step,
  forks, acquires, stores, notifies, releases, enters, tests, relocks, Reach, start, later,
  spurious, Run, none_yet, one_more,
}

-- Who is inside the mutex, by where the threads are.
abbrev owner : WorkerPc → CallerPc → Holder
owner forking c = elim c [ testing ↦ the_caller | _ ↦ nobody ]
owner acquiring c = elim c [ testing ↦ the_caller | _ ↦ nobody ]
owner storing c = the_worker
owner notifying c = the_worker
owner releasing c = the_worker
owner over c = elim c [ testing ↦ the_caller | _ ↦ nobody ]

-- What `running` is, by where the worker is.
abbrev stored : WorkerPc → Bool
stored forking = false
stored acquiring = false
stored storing = false
stored notifying = true
stored releasing = true
stored over = true

-- Where the caller can be: not in the mutex with the worker, not asleep after the notification,
-- and not past the loop before the worker is over.
abbrev fits : WorkerPc → CallerPc → Bool
fits forking c = elim c [ returned ↦ false | _ ↦ true ]
fits acquiring c = elim c [ returned ↦ false | _ ↦ true ]
fits storing c = elim c [ returned ↦ false | testing ↦ false | _ ↦ true ]
fits notifying c = elim c [ returned ↦ false | testing ↦ false | _ ↦ true ]
fits releasing c = elim c [ returned ↦ false | testing ↦ false | asleep ↦ false | _ ↦ true ]
fits over c = elim c [ asleep ↦ false | _ ↦ true ]

returned_last : (p : WorkerPc) (c : CallerPc) → fits p c ≡ true → (p ≡ over) ⊎ (c ≢ returned)
returned_last over c h = inl refl
returned_last forking c h = inr (λ e. ground arith)
returned_last acquiring c h = inr (λ e. ground arith)
returned_last storing c h = inr (λ e. ground arith)
returned_last notifying c h = inr (λ e. ground arith)
returned_last releasing c h = inr (λ e. ground arith)

record IsInOrder (s : Handshake) : Type 0 where
  owned : s.fork_mtx ≡ owner s.worker s.caller
  flag : s.running ≡ stored s.worker
  fitting : fits s.worker s.caller ≡ true

Step-IsInOrder : (s t : Handshake) → Step s t → IsInOrder s → IsInOrder t
Step-IsInOrder s t (forks e) w = ground (arith, w.owned, w.flag, w.fitting)
Step-IsInOrder s t (acquires e m) w = ground (arith, w.owned, w.flag, w.fitting)
Step-IsInOrder s t (stores e) w = ground (arith, w.owned, w.flag, w.fitting)
Step-IsInOrder s t (notifies e) w = ground (arith, w.owned, w.flag, w.fitting)
Step-IsInOrder s t (releases e) w = ground (arith, w.owned, w.flag, w.fitting)
Step-IsInOrder s t (enters e m) w = ground (arith, w.owned, w.flag, w.fitting)
Step-IsInOrder s t (tests e) w = ground (arith, w.owned, w.flag, w.fitting)
Step-IsInOrder s t (relocks e m) w = ground (arith, w.owned, w.flag, w.fitting)

Reach-IsInOrder : (s : Handshake) → Reach s → IsInOrder s
unfolding registered
Reach-IsInOrder s start = record { owned = refl; flag = refl; fitting = refl }
Reach-IsInOrder s (later {s = r} past st) = Step-IsInOrder r s st (Reach-IsInOrder r past)
Reach-IsInOrder s (spurious {s = r} past e) =
    let w = Reach-IsInOrder r past in ground (arith, w.owned, w.flag, w.fitting)

abbrev worker_left : WorkerPc → ℕ
worker_left forking = 5
worker_left acquiring = 4
worker_left storing = 3
worker_left notifying = 2
worker_left releasing = 1
worker_left over = 0

abbrev caller_left : CallerPc → ℕ
caller_left entering = 3
caller_left woken = 2
caller_left testing = 1
caller_left asleep = 0
caller_left returned = 0

-- A bound on the steps that are left: a notification costs the worker one step and may give the
-- caller two.
abbrev left : Handshake → ℕ
left s = 4 * worker_left s.worker + caller_left s.caller

Step-left : (s t : Handshake) → Step s t → IsInOrder s → left t < left s
Step-left s t (forks e) w = ground arith
Step-left s t (acquires e m) w = ground arith
Step-left s t (stores e) w = ground arith
Step-left s t (notifies e) w = ground arith
Step-left s t (releases e) w = ground arith
Step-left s t (enters e m) w = ground arith
Step-left s t (tests e) w = ground arith
Step-left s t (relocks e m) w = ground arith

Run-left : (s t : Handshake) (k : ℕ) → IsInOrder s → Run s k t → IsInOrder t × (k + left t ≤ left s)
Run-left s t k w none_yet = (w, omega arith)
Run-left s t k w (one_more {k = j} {t = r} past st) =
    let (v, le) = Run-left s r j w past in
    (Step-IsInOrder r t st v, omega (arith, Step-left r t st v))

left_at_most : (s : Handshake) → left s ≤ 23
left_at_most s = ground arith

-- Both threads are past it, or a step is possible.
progress :
    (s : Handshake) (p : WorkerPc) (c : CallerPc)
    → s.worker ≡ p
    → s.caller ≡ c
    → IsInOrder s
    → ((p ≡ over) × (c ≡ returned)) ⊎ ((t : Handshake) × Step s t)
progress s forking c e f w = inr (_, forks e)
progress s acquiring testing e f w = inr (_, tests f)
progress s acquiring entering e f w = inr (_, acquires e (ground (arith, w.owned)))
progress s acquiring asleep e f w = inr (_, acquires e (ground (arith, w.owned)))
progress s acquiring woken e f w = inr (_, acquires e (ground (arith, w.owned)))
progress s acquiring returned e f w = inr (_, acquires e (ground (arith, w.owned)))
progress s storing c e f w = inr (_, stores e)
progress s notifying c e f w = inr (_, notifies e)
progress s releasing c e f w = inr (_, releases e)
progress s over entering e f w = inr (_, enters f (ground (arith, w.owned)))
progress s over testing e f w = inr (_, tests f)
progress s over asleep e f w = absurd (ground (arith, w.fitting))
progress s over woken e f w = inr (_, relocks f (ground (arith, w.owned)))
progress s over returned e f w = inl (refl, refl)

-- Where the body of `fork_worker` ends (`forks` is always possible): from every state that can be
-- reached, also through waits that ended by themselves, at most 23 steps follow without such a wait;
-- after any of them a further step is possible, or `fork` has
-- returned and the other thread is past its lock; `fork` has not returned before that thread is.
pub fork-returns :
    (s t : Handshake) (k : ℕ)
    → Reach s
    → Run s k t
    → (k ≤ 23)
      × (((t.worker ≡ over) × (t.caller ≡ returned)) ⊎ ((u : Handshake) × Step t u))
      × ((t.worker ≡ over) ⊎ (t.caller ≢ returned))
fork-returns s t k past run =
    let (w, le) = Run-left s t k (Reach-IsInOrder s past) run in
    (
      omega (arith, le, left_at_most s),
      progress t t.worker t.caller refl refl w,
      returned_last t.worker t.caller w.fitting,
    )
