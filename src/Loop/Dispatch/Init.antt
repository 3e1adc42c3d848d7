-- ===== src/Loop/Dispatch/Init.antt =====
-- `scheduler_init` of src/loop_schedule.cpp and the list of loops of a team.
use hpx_mp.Base.{
  ℕ, suc, ◌+◌, ◌≤◌, ◌<◌, ◌≡◌, refl, ◌∙◌, inl, inr, some, [], ◌∷◌, map, arith, ◌==◌, ==_iff, length,
  length-append, length-map, length-replicate, length-set, get_elem?-lt, set, All, All-append,
  All-set, All-map, All-get, update, Bool-cases,
}
use hpx_mp.Base.Int.{pos}
use hpx_mp.Loop.Data.{LoopData, copy, LoopList, emplace_back}
use hpx_mp.Loop.Dispatch.{
  LoopRequest, requested_loop, create_loop, reset_thread, store_loop, scheduler_init,
}
use hpx_mp.Loop.Dispatch.Dynamic.{write-some}
use hpx_mp.Team.{ParallelRegion, OmpTaskData}

-- The vectors of a loop have an entry for each thread.
pub record IsSized (n : ℕ) (d : LoopData) : Type 0 where
  pub threads : d.num_threads ≡ n
  pub firsts : length d.first_iter ≡ n
  pub lasts : length d.last_iter ≡ n
  pub counts : length d.iter_count ≡ n

-- No thread is ahead of the list of loops.
pub record IsInStep (task : ℕ → OmpTaskData) (team : ParallelRegion) : Type 0 where
  pub sized : All (IsSized team.num_threads) team.loop_list.items
  pub behind : (g : ℕ) → g < team.num_threads → (task g).loop_num ≤ length team.loop_list.items

copy-IsSized : (n : ℕ) (d : LoopData) → d.num_threads ≡ n → IsSized n (copy d)
unfolding copy
copy-IsSized n d e = record {
  threads = e;
  firsts = length-replicate d.num_threads (pos 0) ∙ e;
  lasts = length-replicate d.num_threads (pos 0) ∙ e;
  counts = length-replicate d.num_threads (pos 0) ∙ e;
}

pub requested-threads : (n : ℕ) (q : LoopRequest) → (requested_loop n q).num_threads ≡ n
unfolding requested_loop
requested-threads n q = refl

pub emplace_back-IsSized :
    (grow : ℕ → ℕ) (n : ℕ) (v : LoopList) (x : LoopData)
    → All (IsSized n) v.items
    → x.num_threads ≡ n
    → All (IsSized n) (emplace_back grow v x).items
unfolding emplace_back
emplace_back-IsSized grow n v x h e = elim (Bool-cases (length v.items == v.capacity)) [
  | inl full ↦ rw full (
      All-append (IsSized n) (map copy v.items) (copy x ∷ [])
        (All-map (IsSized n) copy v.items (λ d z. copy-IsSized n d z.threads) h)
        (copy-IsSized n x e, tt))
  | inr room ↦ rw room (All-append (IsSized n) v.items (copy x ∷ []) h (copy-IsSized n x e, tt))
]

pub length-emplace_back :
    (grow : ℕ → ℕ) (v : LoopList) (x : LoopData)
    → length (emplace_back grow v x).items ≡ length v.items + 1
unfolding emplace_back
length-emplace_back grow v x = elim (Bool-cases (length v.items == v.capacity)) [
  | inl full ↦
      rw full
        (omega (arith, length-append (map copy v.items) (copy x ∷ []), length-map copy v.items))
  | inr room ↦ rw room (omega (arith, length-append v.items (copy x ∷ [])))
]

pub reset_thread-IsSized :
    (n g : ℕ) (d : LoopData)
    → g < n
    → IsSized n d
    → (d' : LoopData) × (reset_thread d g ≡ some d') × IsSized n d'
unfolding reset_thread
reset_thread-IsSized n g d h z = (
  record d {
    first_iter = set d.first_iter g (pos 0);
    last_iter = set d.last_iter g (pos 0);
    iter_count = set d.iter_count g (pos 0);
  },
  rw (
    write-some d.first_iter g (pos 0) (omega (arith, z.firsts)),
    write-some d.last_iter g (pos 0) (omega (arith, z.lasts)),
    write-some d.iter_count g (pos 0) (omega (arith, z.counts)),
  ),
  record {
    threads = z.threads;
    firsts = length-set d.first_iter g (pos 0) ∙ z.firsts;
    lasts = length-set d.last_iter g (pos 0) ∙ z.lasts;
    counts = length-set d.iter_count g (pos 0) ∙ z.counts;
  },
)

module _ (grow : ℕ → ℕ) (task : ℕ → OmpTaskData) (q : LoopRequest) where
  -- After the first part of a call the loop that the thread comes to is there.
  record IsCreated (g : ℕ) (team team' : ParallelRegion) : Type 0 where
    threads : team'.num_threads ≡ team.num_threads
    sized : All (IsSized team.num_threads) team'.loop_list.items
    reached : (task g).loop_num < length team'.loop_list.items
    grown : length team.loop_list.items ≤ length team'.loop_list.items

  create_loop-IsCreated :
      (g : ℕ) (team : ParallelRegion)
      → IsInStep task team
      → g < team.num_threads
      → IsCreated g team (create_loop grow team (task g) q)
  unfolding create_loop
  create_loop-IsCreated g team w h =
      elim (Bool-cases (length team.loop_list.items == (task g).loop_num)) [
        | inl first ↦ rw first (record {
          threads = refl;
          sized =
              emplace_back-IsSized grow team.num_threads team.loop_list
                (requested_loop team.num_threads q) w.sized (requested-threads team.num_threads q);
          reached = omega (
            arith,
            (==_iff _ _).0 first,
            length-emplace_back grow team.loop_list (requested_loop team.num_threads q),
          );
          grown =
              omega (
                arith,
                length-emplace_back grow team.loop_list (requested_loop team.num_threads q),
              );
        })
        | inr later ↦ rw later (record {
          threads = refl;
          sized = w.sized;
          reached = ground (arith, w.behind g h);
          grown = omega arith;
        })
      ]

  -- Where no thread is ahead of the list of loops and each loop has an entry for every thread, a
  -- call by a thread of the team goes through, moves the thread on by one loop, and keeps both.
  pub scheduler_init-IsInStep :
      (g : ℕ) (team : ParallelRegion)
      → IsInStep task team
      → g < team.num_threads
      → (team' : ParallelRegion) × (t : OmpTaskData) × (scheduler_init grow g team (task g) q
          ≡ some (team', t))
        × (t.loop_num ≡ suc (task g).loop_num)
        × IsInStep (update task g t) team'
  unfolding scheduler_init store_loop
  scheduler_init-IsInStep g team w h =
      let c = create_loop-IsCreated g team w h in
      let team' = create_loop grow team (task g) q in
      let (d, at) = get_elem?-lt team'.loop_list.items (task g).loop_num c.reached in
      let (d', e, z) =
        reset_thread-IsSized team.num_threads g d h (
          All-get (IsSized team.num_threads) team'.loop_list.items (task g).loop_num d c.sized
            at) in
      (
        store_loop team' (task g).loop_num d',
        record (task g) { loop_num = suc (task g).loop_num },
        rw (at, e),
        refl,
        record {
          sized = rw c.threads (
              All-set (IsSized team.num_threads) team'.loop_list.items (task g).loop_num d' c.sized
                z);
          behind = λ j lt. ground (
            arith,
            length-set team'.loop_list.items (task g).loop_num d',
            c.reached,
            c.grown,
            c.threads,
            w.behind j,
          );
        },
      )
