-- ===== src/Loop/Dispatch/Nowait.antt =====
-- A thread that goes on to the next loop while another one still works on this one (`nowait`).
use hpx_mp.Base.{
  ℕ, suc, ◌≤◌, ◌<◌, ◌≡◌, refl, ◌∙◌, inl, inr, some, [], ◌∷◌, map, arith, ◌==◌, ==_iff, true, set,
  get_elem?-set_ne, if◌then◌else◌, length, length-map, length-replicate, get_elem?, get_elem?-lt,
  get_elem?-lt_length, get_elem?-map, get_elem?-append_left, get_elem?-set_ne, All-get, Bool-cases,
}
use hpx_mp.Base.Int.{ℤ, pos, int32}
use hpx_mp.Loop.Data.{LoopData, copy, LoopList, emplace_back}
use hpx_mp.Loop.Dispatch.{
  LoopRequest, requested_loop, create_loop, store_loop, scheduler_init, kmp_next,
}
use hpx_mp.Loop.Dispatch.Dynamic.{Fits, AtRequest, chunk_args, has_chunk}
use hpx_mp.Loop.Dispatch.Requests.{Serving, IsDynamic, blank, one_request, after, Fits-mono}
use hpx_mp.Loop.Dispatch.Init.{
  IsSized, IsInStep, emplace_back-IsSized, length-emplace_back, requested-threads,
  reset_thread-IsSized,
}
use hpx_mp.Team.{ParallelRegion, OmpTaskData}

-- The requests that a loop has counted when a loop is added: none, if the vector had to move.
abbrev pub counted : LoopList → ℕ → ℕ
counted v n = if length v.items == v.capacity then 0 else n

copy-AtRequest :
    {l : ℤ} {span s c n team_size : ℕ} {d : LoopData}
    → d.num_threads ≡ team_size
    → AtRequest l span s c n team_size d
    → AtRequest l span s c 0 team_size (copy d)
unfolding copy
copy-AtRequest {team_size = m} {d = d} e a = record {
  lower = a.lower;
  upper = a.upper;
  stride = a.stride;
  chunk = a.chunk;
  count = refl;
  firsts = length-replicate d.num_threads (pos 0) ∙ e;
  lasts = length-replicate d.num_threads (pos 0) ∙ e;
}

copy-IsDynamic : (d : LoopData) → IsDynamic d.schedule → IsDynamic (copy d).schedule
unfolding copy
copy-IsDynamic d h = h

-- The loop that was at an index of the vector, after another one is added.
abbrev moved : LoopList → LoopData → LoopData
moved v d = if length v.items == v.capacity then copy d else d

older :
    (grow : ℕ → ℕ) (v : LoopList) (x d : LoopData) (j : ℕ)
    → get_elem? v.items j ≡ some d
    → get_elem? (emplace_back grow v x).items j ≡ some (moved v d)
unfolding emplace_back
older grow v x d j at =
    let here = get_elem?-lt_length v.items j d at in
    elim (Bool-cases (length v.items == v.capacity)) [
      | inl full ↦ rw full (
          get_elem?-append_left (map copy v.items) (copy x ∷ []) j
            (omega (arith, length-map copy v.items, here))
          ∙ get_elem?-map copy v.items j d at)
      | inr room ↦ rw room (get_elem?-append_left v.items (copy x ∷ []) j here ∙ at)
    ]

moved-AtRequest :
    {l : ℤ} {span s c n team_size : ℕ} (v : LoopList) {d : LoopData}
    → d.num_threads ≡ team_size
    → AtRequest l span s c n team_size d
    → AtRequest l span s c (counted v n) team_size (moved v d)
moved-AtRequest v e a = elim (Bool-cases (length v.items == v.capacity)) [
  | inl full ↦ rw full (copy-AtRequest e a)
  | inr room ↦ rw room a
]

moved-IsDynamic :
    (v : LoopList) (d : LoopData) → IsDynamic d.schedule → IsDynamic (moved v d).schedule
moved-IsDynamic v d h = elim (Bool-cases (length v.items == v.capacity)) [
  | inl full ↦ rw full (copy-IsDynamic d h)
  | inr room ↦ rw room h
]

counted_le : (v : LoopList) (n : ℕ) → counted v n ≤ n
counted_le v n = ground arith

module _ (grow : ℕ → ℕ) (q : LoopRequest) where
  -- A thread's `scheduler_init` of the next loop, for the threads at the loop at `j`.
  next_loop-Serving :
      {l : ℤ} {span s c n j : ℕ} {task : ℕ → OmpTaskData} (g : ℕ) (team : ParallelRegion)
      → Serving l span s c n j task team
      → IsInStep task team
      → length team.loop_list.items ≡ suc j
      → g < team.num_threads
      → (team' : ParallelRegion) × (t : OmpTaskData) × (scheduler_init grow g team (task g) q
          ≡ some (team', t))
        × (team'.num_threads ≡ team.num_threads)
        × Serving l span s c (counted team.loop_list n) j task team'
  unfolding scheduler_init create_loop store_loop
  next_loop-Serving {j = j} {task = task} g team w step one h =
      let size = team.num_threads in
      let v = team.loop_list in
      let x = requested_loop size q in
      let v' = emplace_back grow v x in
      let first : (length v.items == (task g).loop_num) ≡ true =
        (==_iff _ _).1 (omega (arith, one, w.latest g h)) in
      let sized' = emplace_back-IsSized grow size v x step.sized (requested-threads size q) in
      let (d, at) =
        get_elem?-lt v'.items (suc j) (omega (arith, one, length-emplace_back grow v x)) in
      let (d', e, _) =
        reset_thread-IsSized size g d h (All-get (IsSized size) v'.items (suc j) d sized' at) in
      let there = older grow v x w.loop j w.there in
      let threads = All-get (IsSized size) v.items j w.loop step.sized w.there in
      (
        record team { loop_list = record v' { items = set v'.items (suc j) d' } },
        record (task g) { loop_num = suc (suc j) },
        rw first (rw (w.latest g h) (rw at (rw e refl))),
        refl,
        record {
          loop = moved v w.loop;
          there = get_elem?-set_ne v'.items (suc j) j d' (omega arith) ∙ there;
          at = moved-AtRequest v threads.threads w.at;
          dynamic = moved-IsDynamic v w.loop w.dynamic;
          latest = w.latest;
        },
      )

  -- All threads are at the latest loop, which has a dynamic schedule, fits, and has had `n` requests.
  -- Where a thread goes on to a new loop, the next request on the old one, by any thread, is answered
  -- with its chunk `n` if the vector of loops had room, and with its first chunk if it had none.
  pub next_loop-request :
      {l : ℤ} {span s c n j : ℕ} {task : ℕ → OmpTaskData} (g h : ℕ) (team : ParallelRegion)
      → Fits l span s c n
      → Serving l span s c n j task team
      → IsInStep task team
      → length team.loop_list.items ≡ suc j
      → g < team.num_threads
      → h < team.num_threads
      → (team' : ParallelRegion) × (t : OmpTaskData) × (team'' : ParallelRegion) × (scheduler_init
            grow g team
            (task g)
            q
          ≡ some (team', t))
        × (kmp_next int32 int32 h team' (task h) blank
            ≡ some (
              team'',
              chunk_args l span s c (counted team.loop_list n),
              has_chunk span s c (counted team.loop_list n),
            ))
  next_loop-request {n = n} g h team f w step one lg lh =
      let (team', t, e, threads, w') = next_loop-Serving g team w step one lg in
      (
        team',
        t,
        after h w',
        e,
        one_request h (Fits-mono f (counted_le team.loop_list n)) w' (omega (arith, threads)),
      )
