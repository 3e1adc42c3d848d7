-- ===== src/Team/Reduce/Whole.antt =====
-- `__kmpc_reduce` of src/intel_hpxMP.cpp by a whole team: every thread up to the first barrier, then
-- the thread that combines up to the second.
use hpx_mp.Base.{
  ◌>>=◌, ℕ, ◌+◌, ◌<◌, ◌≡◌, ◌≢◌, ◌⊎◌, inl, inr, refl, sym, ◌∙◌, ap, subst, Bool, true, false, ◌||◌,
  arith, ◌==◌, if◌then◌else◌, update, ℕ_discrete, List, [], ◌∷◌, Option, some, set, get_elem?,
  length, length-set, get_elem?-set_self, get_elem?-set_ne, All, AllDiffer,
}
use hpx_mp.Team.{ParallelRegion, OmpTaskData}
use hpx_mp.Team.Single.{times}
use hpx_mp.Team.Single.First.{passed, single_late, single_first, still_fresh}
use hpx_mp.Team.Reduce.{
  reduce_arrive, reduce_loop, combined, IsReduction, HasData, reduce_loop-combined,
}

-- The threads of a list come to the first barrier; those that combine, the latest first.
unfoldable pub reduce_arrivals :
    (ℕ → ℕ) → ParallelRegion → (ℕ → OmpTaskData) → List ℕ → List ℕ → ParallelRegion × List ℕ
reduce_arrivals address team task [] masters = (team, masters)
reduce_arrivals address team task (g ∷ gs) masters =
    let (team', t, is_master) = reduce_arrive team (task g) g (address g) in
    reduce_arrivals address team' (update task g t) gs (if is_master then g ∷ masters else masters)

-- `if(is_master)`, for each.
unfoldable pub reduce_combine :
    (ℕ → ℕ → ℕ) → (ℕ → ℕ) → ParallelRegion → List ℕ → (ℕ → ℕ) → Option (ℕ → ℕ)
reduce_combine func address team [] store = some store
reduce_combine func address team (g ∷ masters) store = do
  store' ← reduce_loop func g (address g) team.reduce_data team.num_threads store
  reduce_combine func address team masters store'

abbrev pub is_master : List ℕ → ℕ → Bool
is_master [] j = false
is_master (g ∷ masters) j = (g == j) || is_master masters j

abbrev pub one_if : Bool → ℕ
one_if b = if b then 1 else 0

-- What each thread returns, and the memory. `atomic_avail` is a flag of the place in the source.
unfoldable pub kmpc_reduce :
    (ℕ → ℕ → ℕ)
    → Bool
    → (ℕ → ℕ)
    → ParallelRegion
    → (ℕ → OmpTaskData)
    → List ℕ
    → (ℕ → ℕ)
    → Option ((ℕ → ℕ) × (ℕ → ℕ))
kmpc_reduce func true address team task order store = some (λ j. 2, store)
kmpc_reduce func false address team task order store =
    let (team', masters) = reduce_arrivals address team task order [] in
    reduce_combine func address team' masters store >>= λ store'.
    some (λ j. one_if (is_master masters j), store')

-- A thread that leaves its address.
abbrev left : ParallelRegion → ℕ → ℕ → ParallelRegion
left team g a = record team { reduce_data = set team.reduce_data g (some a) }

arrive_late :
    (team : ParallelRegion) (task : OmpTaskData) (g a : ℕ)
    → team.single_counter ≡ 1
    → task.single_counter ≡ 0
    → reduce_arrive team task g a ≡ (left team g a, passed task, false)
unfolding reduce_arrive
arrive_late team task g a taken fresh =
    ap (λ (k : ParallelRegion × OmpTaskData × Bool). (left k.0 g a, k.1, k.2))
      (single_late team task taken fresh)

arrive_first :
    (team : ParallelRegion) (task : OmpTaskData) (g a : ℕ)
    → team.single_counter ≡ 0
    → task.single_counter ≡ 0
    → reduce_arrive team task g a
      ≡ (left (record team { single_counter = team.single_counter + 1 }) g a, passed task, true)
unfolding reduce_arrive
arrive_first team task g a new fresh =
    ap (λ (k : ParallelRegion × OmpTaskData × Bool). (left k.0 g a, k.1, k.2))
      (single_first team task new fresh)

module _ (address : ℕ → ℕ) where
  -- What a list of threads does after one of them has come.
  abbrev after :
      (ℕ → OmpTaskData)
      → ℕ
      → List ℕ
      → List ℕ
      → ParallelRegion × OmpTaskData × Bool
      → ParallelRegion × List ℕ
  after task g gs masters k =
      reduce_arrivals address k.0 (update task g k.1) gs (if k.2 then g ∷ masters else masters)

  -- The vector of addresses, and what else the arrivals come to.
  abbrev all_left : ParallelRegion → List ℕ → ParallelRegion
  all_left team [] = team
  all_left team (g ∷ gs) = all_left (left team g (address g)) gs

  losers :
      (team : ParallelRegion) (task : ℕ → OmpTaskData) (gs masters : List ℕ)
      → team.single_counter ≡ 1
      → All (λ j. (task j).single_counter ≡ 0) gs
      → AllDiffer gs
      → reduce_arrivals address team task gs masters ≡ (all_left team gs, masters)
  unfolding reduce_arrivals
  losers team task [] masters taken fresh differ = refl
  losers team task (g ∷ gs) masters taken fresh differ =
      ap (after task g gs masters) (arrive_late team (task g) g (address g) taken fresh.0)
      ∙ losers (left team g (address g)) (update task g (passed (task g))) gs masters taken
          (still_fresh task g (passed (task g)) gs differ.0 fresh.1) differ.1

  first_combines :
      (team : ParallelRegion) (task : ℕ → OmpTaskData) (g : ℕ) (gs : List ℕ)
      → team.single_counter ≡ 0
      → All (λ j. (task j).single_counter ≡ 0) (g ∷ gs)
      → AllDiffer (g ∷ gs)
      → reduce_arrivals address team task (g ∷ gs) [] ≡ (
        all_left (left (record team { single_counter = team.single_counter + 1 }) g (address g)) gs,
        g ∷ [],
      )
  unfolding reduce_arrivals
  first_combines team task g gs new fresh differ =
      ap (after task g gs []) (arrive_first team (task g) g (address g) new fresh.0)
      ∙ losers (left (record team { single_counter = team.single_counter + 1 }) g (address g))
          (update task g (passed (task g))) gs (g ∷ []) (omega (arith, new))
          (still_fresh task g (passed (task g)) gs differ.0 fresh.1) differ.1

  all_left-num_threads :
      (team : ParallelRegion) (gs : List ℕ) → (all_left team gs).num_threads ≡ team.num_threads
  all_left-num_threads team [] = refl
  all_left-num_threads team (g ∷ gs) = all_left-num_threads (left team g (address g)) gs

  entry_of_other :
      (team : ParallelRegion) (g : ℕ) (gs : List ℕ) (i : ℕ)
      → g ≢ i
      → (0 < times i (g ∷ gs)) ⊎ (get_elem? team.reduce_data i ≡ some (some (address i)))
      → (0 < times i gs)
        ⊎ (get_elem? (left team g (address g)).reduce_data i ≡ some (some (address i)))
  entry_of_other team g gs i ne (inl h) =
      let off : (g == i) ≡ false = ground arith in
      let later : 0 < 0 + times i gs =
        subst (λ (b : Bool). 0 < (if b then 1 else 0) + times i gs) off h in
      inl (omega (arith, later))
  entry_of_other team g gs i ne (inr h) =
      inr (get_elem?-set_ne team.reduce_data g i (some (address g)) ne ∙ h)

  -- An entry that is right stays, and one of a thread that comes becomes right.
  all_left-entry :
      (team : ParallelRegion) (gs : List ℕ) (i : ℕ)
      → All (λ g. g < length team.reduce_data) gs
      → (0 < times i gs) ⊎ (get_elem? team.reduce_data i ≡ some (some (address i)))
      → get_elem? (all_left team gs).reduce_data i ≡ some (some (address i))
  all_left-entry team [] i short (inl h) = absurd (omega arith)
  all_left-entry team [] i short (inr h) = h
  all_left-entry team (g ∷ gs) i short h =
      all_left-entry (left team g (address g)) gs i
        (subst (λ n. All (λ j. j < n) gs) (sym (length-set team.reduce_data g (some (address g))))
          short.1)
        (elim (ℕ_discrete g i) [
          | yes same ↦ inr (
              subst
                (λ j.
                  get_elem? (set team.reduce_data g (some (address g))) j ≡ some (some (address j)))
                same (get_elem?-set_self team.reduce_data g (some (address g)) short.0))
          | no ne ↦ entry_of_other team g gs i ne h
        ])

-- The store after the one thread of `g ∷ []` has combined.
reduce_combine_one :
    (func : ℕ → ℕ → ℕ) (address : ℕ → ℕ) (team : ParallelRegion) (g : ℕ) (store next : ℕ → ℕ)
    → reduce_loop func g (address g) team.reduce_data team.num_threads store ≡ some next
    → reduce_combine func address team (g ∷ []) store ≡ some next
unfolding reduce_combine
reduce_combine_one func address team g store next h = rw h refl

or_false : (b : Bool) → (b || false) ≡ b
or_false true = refl
or_false false = refl

returned : (g j : ℕ) → one_if (is_master (g ∷ []) j) ≡ one_if (g == j)
returned g j = ap one_if (or_false (g == j))

module _ {func : ℕ → ℕ → ℕ} {e : ℕ} (r : IsReduction func e) (address : ℕ → ℕ)
    (apart : (i j : ℕ) → i ≢ j → address i ≢ address j) where
  -- Where the operation is commutative and associative with a neutral value (`IsReduction`), the
  -- threads' data are apart, the vector of the team has an entry for each, and the threads of a team,
  -- each at its first such region, come in any order, each once (`AllDiffer`): without atomics
  -- `__kmpc_reduce` goes through, the first to come gets 1 and every other 0, the data of the first
  -- become the combination of the values of all the threads, and no other data change; with atomics
  -- every thread gets 2 and nothing changes.
  pub kmpc_reduce-combined :
      (team : ParallelRegion) (task : ℕ → OmpTaskData) (g : ℕ) (gs : List ℕ) (store : ℕ → ℕ)
      → team.single_counter ≡ 0
      → All (λ j. (task j).single_counter ≡ 0) (g ∷ gs)
      → AllDiffer (g ∷ gs)
      → All (λ j. j < length team.reduce_data) (g ∷ gs)
      → ((i : ℕ) → i < team.num_threads → 0 < times i (g ∷ gs))
      → g < team.num_threads
      → ((result next : ℕ → ℕ) × (kmpc_reduce func false address team task (g ∷ gs) store
            ≡ some (result, next))
          × ((j : ℕ) → result j ≡ one_if (g == j))
          × (next (address g) ≡ combined func e (λ i. store (address i)) team.num_threads)
          × ((a : ℕ) → a ≢ address g → next a ≡ store a))
        × (kmpc_reduce func true address team task (g ∷ gs) store ≡ some (λ j. 2, store))
  unfolding kmpc_reduce
  kmpc_reduce-combined team task g gs store new fresh differ short all_come g_is =
      let team0 = record team { single_counter = team.single_counter + 1 } in
      let done = all_left address (left team0 g (address g)) gs in
      let d : HasData address team.num_threads done.reduce_data = record {
        left = λ i lt. all_left-entry address team0 (g ∷ gs) i short (inl (all_come i lt));
        apart = apart;
      } in
      let count : done.num_threads ≡ team.num_threads =
        all_left-num_threads address (left team0 g (address g)) gs in
      let (next, h, here, others) = reduce_loop-combined r d g store g_is in
      let h' : reduce_loop func g (address g) done.reduce_data done.num_threads store ≡ some next =
        rw count h in
      (
        (
          λ j. one_if (is_master (g ∷ []) j),
          next,
          rw (first_combines address team task g gs new fresh differ)
              (rw (reduce_combine_one func address done g store next h') refl),
          returned g,
          here,
          others,
        ),
        refl,
      )
