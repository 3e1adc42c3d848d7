-- ===== src/Start/Wait/Returns.antt =====
-- `start_hpx` returns; where no wait has ended by itself, only when HPX has started.
use hpx_mp.Base.{ℕ, ◌+◌, ◌*◌, ◌≤◌, ◌<◌, ◌≡◌, ◌≢◌, refl, Bool, true, false, arith, ◌⊎◌, inl, inr}
use hpx_mp.Start.Wait.{
  StartupPc, starting, acquiring, storing, notifying, releasing, over, MainPc, entering, testing,
  asleep, woken, returned, Holder, nobody, the_startup, the_main, Startup, hpx_start, Step, starts,
  acquires, stores, notifies, releases, enters, tests, relocks, Reach, start, later, spurious, Run,
  none_yet, one_more,
}

-- Who is inside the mutex, by where the threads are.
abbrev owner : StartupPc → MainPc → Holder
owner starting m = elim m [ testing ↦ the_main | _ ↦ nobody ]
owner acquiring m = elim m [ testing ↦ the_main | _ ↦ nobody ]
owner storing m = the_startup
owner notifying m = the_startup
owner releasing m = the_startup
owner over m = elim m [ testing ↦ the_main | _ ↦ nobody ]

-- What `running` is, by where HPX is.
abbrev pub stored : StartupPc → Bool
stored starting = false
stored acquiring = false
stored storing = false
stored notifying = true
stored releasing = true
stored over = true

-- Where the main thread can be while no wait has ended by itself.
abbrev fits : StartupPc → MainPc → Bool
fits starting m = elim m [ returned ↦ false | woken ↦ false | _ ↦ true ]
fits acquiring m = elim m [ returned ↦ false | woken ↦ false | _ ↦ true ]
fits storing m = elim m [ returned ↦ false | woken ↦ false | testing ↦ false | _ ↦ true ]
fits notifying m = elim m [ returned ↦ false | woken ↦ false | testing ↦ false | _ ↦ true ]
fits releasing m = elim m [ returned ↦ false | testing ↦ false | asleep ↦ false | _ ↦ true ]
fits over m = elim m [ asleep ↦ false | _ ↦ true ]

-- And at any time.
abbrev may : StartupPc → MainPc → Bool
may storing m = elim m [ testing ↦ false | returned ↦ false | _ ↦ true ]
may notifying m = elim m [ testing ↦ false | returned ↦ false | _ ↦ true ]
may releasing m = elim m [ testing ↦ false | asleep ↦ false | returned ↦ false | _ ↦ true ]
may over m = elim m [ asleep ↦ false | _ ↦ true ]
may starting m = true
may acquiring m = true

record IsInOrder (k : ℕ) (s : Startup) : Type 0 where
  owned : s.startup_mtx ≡ owner s.startup s.main
  flag : s.running ≡ stored s.startup
  placed : may s.startup s.main ≡ true
  fitting : (fits s.startup s.main ≡ true) ⊎ (0 < k)

Step-IsInOrder : (k : ℕ) (s t : Startup) → Step s t → IsInOrder k s → IsInOrder k t
Step-IsInOrder k s t (starts e) w = ground (arith, w.owned, w.flag, w.placed, w.fitting)
Step-IsInOrder k s t (acquires e v m) w = ground (arith, w.owned, w.flag, w.placed, w.fitting)
Step-IsInOrder k s t (stores e v) w = ground (arith, w.owned, w.flag, w.placed, w.fitting)
Step-IsInOrder k s t (notifies e v) w = ground (arith, w.owned, w.flag, w.placed, w.fitting)
Step-IsInOrder k s t (releases e v) w = ground (arith, w.owned, w.flag, w.placed, w.fitting)
Step-IsInOrder k s t (enters e m) w = ground (arith, w.owned, w.flag, w.placed, w.fitting)
Step-IsInOrder k s t (tests e) w = ground (arith, w.owned, w.flag, w.placed, w.fitting)
Step-IsInOrder k s t (relocks e m) w = ground (arith, w.owned, w.flag, w.placed, w.fitting)

Reach-IsInOrder : (k : ℕ) (s : Startup) → Reach k s → IsInOrder k s
unfolding hpx_start
Reach-IsInOrder k s start = record { owned = refl; flag = refl; placed = refl; fitting = inl refl }
Reach-IsInOrder k s (later {s = r} past st) = Step-IsInOrder k r s st (Reach-IsInOrder k r past)
Reach-IsInOrder k s (spurious {k = j} {s = r} past e) =
    let w = Reach-IsInOrder j r past in
    record {
      owned = ground (arith, w.owned);
      flag = w.flag;
      placed = ground (arith, w.placed);
      fitting = inr (omega arith);
    }

abbrev startup_left : StartupPc → ℕ
startup_left starting = 5
startup_left acquiring = 4
startup_left storing = 3
startup_left notifying = 2
startup_left releasing = 1
startup_left over = 0

abbrev main_left : MainPc → ℕ
main_left entering = 2
main_left testing = 1
main_left woken = 1
main_left asleep = 0
main_left returned = 0

-- A bound on the steps that are left: a notification costs HPX one step and may give the main thread
-- one.
abbrev left : Startup → ℕ
left s = 2 * startup_left s.startup + main_left s.main

Step-left : (k : ℕ) (s t : Startup) → Step s t → IsInOrder k s → left t < left s
Step-left k s t (starts e) w = ground arith
Step-left k s t (acquires e v m) w = ground arith
Step-left k s t (stores e v) w = ground arith
Step-left k s t (notifies e v) w = ground arith
Step-left k s t (releases e v) w = ground arith
Step-left k s t (enters e m) w = ground arith
Step-left k s t (tests e) w = ground arith
Step-left k s t (relocks e m) w = ground arith

Run-left :
    (j : ℕ) (s t : Startup) (k : ℕ)
    → IsInOrder j s
    → Run s k t
    → IsInOrder j t × (k + left t ≤ left s)
Run-left j s t k w none_yet = (w, omega arith)
Run-left j s t k w (one_more {k = i} {t = r} past st) =
    let (v, le) = Run-left j s r i w past in
    (Step-IsInOrder j r t st v, omega (arith, Step-left j r t st v))

left_at_most : (s : Startup) → left s ≤ 12
left_at_most s = ground arith

-- Both threads are past it, or a step is possible.
progress :
    (j : ℕ) (s : Startup) (p : StartupPc) (m : MainPc)
    → s.startup ≡ p
    → s.main ≡ m
    → IsInOrder j s
    → ((p ≡ over) × (m ≡ returned))
      ⊎ ((t : Startup) × Step s t)
      ⊎ ((0 < j) × (p ≡ acquiring) × (m ≡ returned))
progress j s starting m e f w = inr (inl (_, starts e))
progress j s acquiring testing e f w = inr (inl (_, tests f))
progress j s acquiring entering e f w =
    inr (inl (_, acquires e (ground (arith, f)) (ground (arith, w.owned))))
progress j s acquiring asleep e f w =
    inr (inl (_, acquires e (ground (arith, f)) (ground (arith, w.owned))))
progress j s acquiring woken e f w =
    inr (inl (_, acquires e (ground (arith, f)) (ground (arith, w.owned))))
progress j s acquiring returned e f w = inr (inr (ground (arith, w.fitting), refl, refl))
progress j s storing m e f w = inr (inl (_, stores e (ground (arith, w.placed))))
progress j s notifying m e f w = inr (inl (_, notifies e (ground (arith, w.placed))))
progress j s releasing m e f w = inr (inl (_, releases e (ground (arith, w.placed))))
progress j s over entering e f w = inr (inl (_, enters f (ground (arith, w.owned))))
progress j s over testing e f w = inr (inl (_, tests f))
progress j s over asleep e f w = absurd (ground (arith, w.placed))
progress j s over woken e f w = inr (inl (_, relocks f (ground (arith, w.owned))))
progress j s over returned e f w = inl (refl, refl)

returned_last : (p : StartupPc) (m : MainPc) → fits p m ≡ true → (p ≡ over) ⊎ (m ≢ returned)
returned_last over m h = inl refl
returned_last starting m h = inr (λ e. ground arith)
returned_last acquiring m h = inr (λ e. ground arith)
returned_last storing m h = inr (λ e. ground arith)
returned_last notifying m h = inr (λ e. ground arith)
returned_last releasing m h = inr (λ e. ground arith)

last_or_early :
    (j : ℕ) (p : StartupPc) (m : MainPc)
    → (fits p m ≡ true) ⊎ (0 < j)
    → (p ≡ over) ⊎ (m ≢ returned) ⊎ (0 < j)
last_or_early j p m (inl h) = elim (returned_last p m h) [ inl e ↦ inl e | inr e ↦ inr (inl e) ]
last_or_early j p m (inr h) = inr (inr h)

-- From every state that `start_hpx` and `wait_for_startup` can reach, with `j` waits that ended by
-- themselves, at most 12 steps follow without such a wait, where the start of HPX is one; after any of
-- them a further step is possible, or `start_hpx` has returned and `wait_for_startup` is past its
-- lock, or, where a wait has ended by itself, `start_hpx` has returned and what `wait_for_startup`
-- does next is undefined, since the mutex that it locks is gone. Where no wait has ended by itself,
-- `start_hpx` has not returned before `wait_for_startup` is past its lock.
pub start_hpx-returns :
    (j k : ℕ) (s t : Startup)
    → Reach j s
    → Run s k t
    → (k ≤ 12)
      × (((t.startup ≡ over) × (t.main ≡ returned))
          ⊎ ((u : Startup) × Step t u)
          ⊎ ((0 < j) × (t.startup ≡ acquiring) × (t.main ≡ returned)))
      × ((t.startup ≡ over) ⊎ (t.main ≢ returned) ⊎ (0 < j))
start_hpx-returns j k s t past run =
    let (w, le) = Run-left j s t k (Reach-IsInOrder j s past) run in
    (
      omega (arith, le, left_at_most s),
      progress j t t.startup t.main refl refl w,
      last_or_early j t.startup t.main w.fitting,
    )
