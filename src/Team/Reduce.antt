-- ===== src/Team/Reduce.antt =====
-- `__kmpc_reduce` of src/intel_hpxMP.cpp: the thread that `__kmpc_single` picks combines the data of
-- the team, between two barriers.
pub mod Whole
pub mod End
use hpx_mp.Base.{
  ◌>>=◌, ℕ, suc, zero, ◌≤◌, ◌<◌, ◌≡◌, ◌≢◌, refl, sym, ◌∙◌, ap, Bool, false, arith, ◌==◌, ==_iff,
  if◌then◌else◌, update, update_self, update_ne, ℕ_discrete, subst, List, Option, some, set,
  get_elem?,
}
use hpx_mp.Team.{ParallelRegion, OmpTaskData}
use hpx_mp.Team.Single.{kmpc_single}

-- Before the first barrier: a thread leaves the address of its data, and learns whether it combines.
unfoldable pub reduce_arrive :
    ParallelRegion → OmpTaskData → ℕ → ℕ → ParallelRegion × OmpTaskData × Bool
reduce_arrive team task gtid lhs =
    let (team', task', is_master) = kmpc_single team task in
    (record team' { reduce_data = set team'.reduce_data gtid (some lhs) }, task', is_master)

-- One round of the loop of the thread that combines; `func` changes what its first argument points
-- to. An entry that no thread has left is a null pointer.
unfoldable pub reduce_one : (ℕ → ℕ → ℕ) → ℕ → ℕ → List (Option ℕ) → ℕ → (ℕ → ℕ) → Option (ℕ → ℕ)
reduce_one func gtid lhs reduce_data i store = if i == gtid then some store else do
  entry ← get_elem? reduce_data i
  other ← entry
  some (update store lhs (func (store lhs) (store other)))

-- `for( int i = 0; i < num_threads; i++ )`, the first `n` rounds.
unfoldable pub reduce_loop : (ℕ → ℕ → ℕ) → ℕ → ℕ → List (Option ℕ) → ℕ → (ℕ → ℕ) → Option (ℕ → ℕ)
reduce_loop func gtid lhs reduce_data zero store = some store
reduce_loop func gtid lhs reduce_data (suc n) store = do
  store' ← reduce_loop func gtid lhs reduce_data n store
  reduce_one func gtid lhs reduce_data n store'

-- The values of the first threads, in turn.
abbrev pub combined : (ℕ → ℕ → ℕ) → ℕ → (ℕ → ℕ) → ℕ → ℕ
combined func e f zero = e
combined func e f (suc n) = func (combined func e f n) (f n)

-- An operation in whose terms the order does not matter, with a neutral value.
pub record IsReduction (func : ℕ → ℕ → ℕ) (e : ℕ) : Type 0 where
  pub swaps : (a b : ℕ) → func a b ≡ func b a
  pub regroups : (a b c : ℕ) → func (func a b) c ≡ func a (func b c)
  pub neutral : (a : ℕ) → func e a ≡ a

-- Each thread has left data of its own.
pub record HasData (address : ℕ → ℕ) (n : ℕ) (reduce_data : List (Option ℕ)) : Type 0 where
  pub left : (i : ℕ) → i < n → get_elem? reduce_data i ≡ some (some (address i))
  pub apart : (i j : ℕ) → i ≢ j → address i ≢ address j

module _ {func : ℕ → ℕ → ℕ} {e : ℕ} (r : IsReduction func e) {address : ℕ → ℕ} {n : ℕ}
    {reduce_data : List (Option ℕ)} (d : HasData address n reduce_data) where
  -- After some rounds, for the thread `g` that combines.
  record IsCombined (g k : ℕ) (store store' : ℕ → ℕ) : Type 0 where
    others : (a : ℕ) → a ≢ address g → store' a ≡ store a
    sum_below : g < k → store' (address g) ≡ combined func e (λ i. store (address i)) k
    sum_above :
        k ≤ g
        → store' (address g) ≡ func (combined func e (λ i. store (address i)) k) (store (address g))

  start-IsCombined : (g : ℕ) (store : ℕ → ℕ) → IsCombined g zero store store
  start-IsCombined g store = record {
    others = λ a ne. refl;
    sum_below = λ lt. omega arith;
    sum_above = λ le. sym (r.neutral (store (address g)));
  }

  own_round :
      (k : ℕ) (store store' : ℕ → ℕ)
      → IsCombined k k store store'
      → IsCombined k (suc k) store store'
  own_round k store store' w = record {
    others = w.others;
    sum_below = λ lt. w.sum_above (omega arith);
    sum_above = λ le. omega arith;
  }

  swap_last : (a b c : ℕ) → func (func a b) c ≡ func (func a c) b
  swap_last a b c = r.regroups a b c ∙ ap (func a) (r.swaps b c) ∙ sym (r.regroups a c b)

  other_round :
      (g k : ℕ) (store store' : ℕ → ℕ)
      → k ≢ g
      → IsCombined g k store store'
      → IsCombined g
          (suc k)
          store
          (update store' (address g) (func (store' (address g)) (store' (address k))))
  other_round g k store store' ne w =
      let v = func (store' (address g)) (store' (address k)) in
      let theirs : store' (address k) ≡ store (address k) = w.others (address k) (d.apart k g ne) in
      record {
        others = λ a na. update_ne store' (address g) a v (λ q. na (sym q)) ∙ w.others a na;
        sum_below = λ lt.
            update_self store' (address g) v
            ∙ ap (λ t. func t (store' (address k))) (w.sum_below (omega arith))
            ∙ ap (func (combined func e (λ i. store (address i)) k)) theirs;
        sum_above = λ le.
            update_self store' (address g) v
            ∙ ap (λ t. func t (store' (address k))) (w.sum_above (omega arith))
            ∙ ap (func (func (combined func e (λ i. store (address i)) k) (store (address g))))
                theirs
            ∙ swap_last (combined func e (λ i. store (address i)) k) (store (address g))
                (store (address k));
      }

  one-IsCombined :
      (g k : ℕ) (store store' : ℕ → ℕ)
      → k < n
      → IsCombined g k store store'
      → (next : ℕ → ℕ) × (reduce_one func g (address g) reduce_data k store' ≡ some next)
        × IsCombined g (suc k) store next
  unfolding reduce_one
  one-IsCombined g k store store' lt w = elim (ℕ_discrete k g) [
    | yes own ↦ (
      store',
      rw ((==_iff k g).1 own) refl,
      subst (λ j. IsCombined j k store store' → IsCombined j (suc k) store store') own
          (own_round k store store') w,
    )
    | no ne ↦ (
      update store' (address g) (func (store' (address g)) (store' (address k))),
      (let off : (k == g) ≡ false = ground arith in rw off (rw (d.left k lt) refl)),
      other_round g k store store' ne w,
    )
  ]

  loop-IsCombined :
      (g k : ℕ) (store : ℕ → ℕ)
      → k ≤ n
      → (next : ℕ → ℕ) × (reduce_loop func g (address g) reduce_data k store ≡ some next)
        × IsCombined g k store next
  unfolding reduce_loop
  loop-IsCombined g zero store le = (store, refl, start-IsCombined g store)
  loop-IsCombined g (suc k) store le =
      let (before, e', w) = loop-IsCombined g k store (omega arith) in
      let (next, e'', w') = one-IsCombined g k store before (omega arith) w in
      (next, rw e' (rw e'' refl), w')

  -- Where the operation is commutative and associative with a neutral value (`IsReduction`) and each
  -- thread has left the address of data of its own (`HasData`), the thread of the team that combines,
  -- whichever it is, goes through, leaves in its data the combination of all the threads' values, and
  -- changes nothing else.
  pub reduce_loop-combined :
      (g : ℕ) (store : ℕ → ℕ)
      → g < n
      → (next : ℕ → ℕ) × (reduce_loop func g (address g) reduce_data n store ≡ some next)
        × (next (address g) ≡ combined func e (λ i. store (address i)) n)
        × ((a : ℕ) → a ≢ address g → next a ≡ store a)
  reduce_loop-combined g store lt =
      let (next, e', w) = loop-IsCombined g n store (omega arith) in
      (next, e', w.sum_below lt, w.others)
