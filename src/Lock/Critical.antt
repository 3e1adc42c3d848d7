-- ===== src/Lock/Critical.antt =====
-- `__kmpc_critical` and `__kmpc_end_critical` of src/intel_hpxMP.cpp: named regions on the mutex of
-- the thread's team (`crit_mtx` of `parallel_region`, src/hpx_runtime.h).
use hpx_mp.Base.{
  ℕ, ◌≡◌, ◌≢◌, ◌⊎◌, inl, inr, refl, true, false, Option, none, some, arith, update, update_ne,
  Option-cases, Bool-cases,
}
use hpx_mp.Lock.{Spinlock}

module _ (spin : Spinlock) (team_of : ℕ → ℕ) where
  -- The mutex of each team, and the name of the region that a thread is in.
  pub record Regions : Type 0 where
    pub crit_mtx : ℕ → spin.State
    pub inside : ℕ → Option ℕ

  abbrev locked : (ℕ → spin.State) → ℕ → Option spin.State → Option (ℕ → spin.State)
  locked mutexes team none = none
  locked mutexes team (some l) = some (update mutexes team l)

  -- The name of the region is an argument that is not used; `none` while the mutex spins.
  unfoldable pub kmpc_critical : ℕ → ℕ → (ℕ → spin.State) → Option (ℕ → spin.State)
  kmpc_critical thread crit mutexes =
      let team = team_of thread in locked mutexes team (spin.lock (mutexes team))

  unfoldable pub kmpc_end_critical : ℕ → ℕ → (ℕ → spin.State) → ℕ → spin.State
  kmpc_end_critical thread crit mutexes =
      let team = team_of thread in update mutexes team (spin.unlock (mutexes team))

  abbrev pub outside : Regions
  outside = record { crit_mtx = λ team. spin.fresh; inside = λ i. none }

  pub data Step (s : Regions) : Regions → Type 0 where
    enters :
        (i crit : ℕ) (m : ℕ → spin.State)
        → kmpc_critical i crit s.crit_mtx ≡ some m
        → Step s (record { crit_mtx = m; inside = update s.inside i (some crit) })
    leaves :
        (i crit : ℕ)
        → s.inside i ≡ some crit
        → Step s (record {
          crit_mtx = kmpc_end_critical i crit s.crit_mtx;
          inside = update s.inside i none;
        })

  pub data Reach : Regions → Type 0 where
    start : Reach outside
    later : {s t : Regions} → Reach s → Step s t → Reach t

  -- A thread that is in a region has its team's mutex, alone.
  record IsGuarded (s : Regions) : Type 0 where
    guarded : (i a : ℕ) → s.inside i ≡ some a → spin.held (s.crit_mtx (team_of i)) ≡ true
    one : (i j a b : ℕ) → s.inside i ≡ some a → s.inside j ≡ some b → team_of i ≡ team_of j → i ≡ j

  kmpc_critical_done :
      (i crit : ℕ) (mutexes m : ℕ → spin.State)
      → kmpc_critical i crit mutexes ≡ some m
      → (l : spin.State) × (spin.held (mutexes (team_of i)) ≡ false)
        × (spin.held l ≡ true)
        × (m ≡ update mutexes (team_of i) l)
  unfolding kmpc_critical
  kmpc_critical_done i crit mutexes m e = elim (Bool-cases (spin.held (mutexes (team_of i)))) [
    | inl held ↦ absurd (ground (arith, spin.lock_held (mutexes (team_of i)) held))
    | inr free ↦
        let (l, taken, held) = spin.lock_free (mutexes (team_of i)) free in
        (l, free, held, ground (arith, taken))
  ]

  enters-IsGuarded :
      (s : Regions) (i crit : ℕ) (l : spin.State)
      → spin.held (s.crit_mtx (team_of i)) ≡ false
      → spin.held l ≡ true
      → IsGuarded s
      → IsGuarded (record {
        crit_mtx = update s.crit_mtx (team_of i) l;
        inside = update s.inside i (some crit);
      })
  enters-IsGuarded s i crit l free held w = record {
    guarded = λ j b e. ground (arith, w.guarded j b);
    one = λ j k a b e f same. ground (arith, w.one j k a b, w.guarded j a, w.guarded k b);
  }

  leaves-IsGuarded :
      (s : Regions) (i crit : ℕ)
      → s.inside i ≡ some crit
      → IsGuarded s
      → IsGuarded (record {
        crit_mtx = kmpc_end_critical i crit s.crit_mtx;
        inside = update s.inside i none;
      })
  unfolding kmpc_end_critical
  leaves-IsGuarded s i crit at w = record {
    guarded = λ j b e. ground (arith, w.guarded j b, w.one i j crit b at);
    one = λ j k a b e f same. ground (arith, w.one j k a b);
  }

  Step-IsGuarded : (s t : Regions) → Step s t → IsGuarded s → IsGuarded t
  Step-IsGuarded s t (enters i crit m e) w =
      let (l, free, held, same) = kmpc_critical_done i crit s.crit_mtx m e in
      rw same (enters-IsGuarded s i crit l free held w)
  Step-IsGuarded s t (leaves i crit e) w = leaves-IsGuarded s i crit e w

  Reach-IsGuarded : (s : Regions) → Reach s → IsGuarded s
  Reach-IsGuarded s start = record { guarded = λ i a e. cc; one = λ i j a b e f same. cc }
  Reach-IsGuarded s (later {s = r} past st) = Step-IsGuarded r s st (Reach-IsGuarded r past)

  -- Whatever regions the threads have entered and left: while a thread is in a critical region, no
  -- other thread of its team is in one, of whatever name, and every thread of the team that comes
  -- to one, of whatever name, waits; so does that thread itself.
  pub critical-excludes :
      (s : Regions) (i a : ℕ)
      → Reach s
      → s.inside i ≡ some a
      → (j : ℕ) → team_of i ≡ team_of j
      → ((i ≡ j) ⊎ (s.inside j ≡ none)) × ((b : ℕ) → kmpc_critical j b s.crit_mtx ≡ none)
  unfolding kmpc_critical
  critical-excludes s i a past at j same =
      let w = Reach-IsGuarded s past in
      let held = w.guarded i a at in
      (
        elim (Option-cases (s.inside j)) [
          | inl out ↦ inr out
          | inr (b, also) ↦ inl (w.one i j a b at also same)
        ],
        λ b. rw (← same) (rw (spin.lock_held (s.crit_mtx (team_of i)) held) refl),
      )

  -- Two threads of different teams can be in a critical region of one name at the same time.
  critical_two_teams :
      (i j crit : ℕ)
      → team_of i ≢ team_of j
      → (s : Regions) × Reach s × (s.inside i ≡ some crit) × (s.inside j ≡ some crit)
  unfolding kmpc_critical
  critical_two_teams i j crit apart =
      let (l, taken, held) = spin.lock_free spin.fresh spin.fresh_free in
      let m = update (λ (team : ℕ). spin.fresh) (team_of i) l in
      let first : kmpc_critical i crit (λ team. spin.fresh) ≡ some m = rw taken refl in
      let second : kmpc_critical j crit m ≡ some (update m (team_of j) l) =
        rw (update_ne (λ (team : ℕ). spin.fresh) (team_of i) (team_of j) l apart) (rw taken refl) in
      (
        _,
        later (later start (enters i crit m first)) (enters j crit _ second),
        ground (arith, apart),
        ground arith,
      )
