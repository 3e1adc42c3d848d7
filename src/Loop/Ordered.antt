-- ===== src/Loop/Ordered.antt =====
-- `__kmpc_ordered` and `__kmpc_end_ordered` of src/loop_schedule.cpp.
use hpx_mp.Base.{
  ℕ, zero, suc, ◌+◌, ◌^◌, ◌≤◌, ◌<◌, ◌≡◌, ◌≢◌, refl, sym, ◌∙◌, ap, subst, ◌↔◌, Bool, true, Option,
  some, [], ◌∷◌, not, ◌||◌, arith, ◌>>=◌, length-set, get_elem?, get_elem?-lt_length,
  get_elem?-set_self, get_elem?-set_ne, set,
}
use hpx_mp.Base.Int.{ℤ, pos, int32, add, ltb_ℤ}
use hpx_mp.Base.Int32.{add-pos}
use hpx_mp.Loop.Data.{LoopData}
use hpx_mp.Loop.Dispatch.{current_loop, store_loop}
use hpx_mp.Loop.Dispatch.Dynamic.{Fits, after_request}
use hpx_mp.Loop.Dispatch.Requests.{Serving, requests, chunks, current_loop-suc, two_requests}
use hpx_mp.Team.{ParallelRegion, OmpTaskData}

-- Whether the loop that waits ends: the counter is within the thread's bounds.
unfoldable pub ordered_passes : LoopData → ℕ → Option Bool
ordered_passes l gtid = do
  first ← get_elem? l.first_iter gtid
  last ← get_elem? l.last_iter gtid
  some (not (ltb_ℤ l.ordered_count first || ltb_ℤ last l.ordered_count))

unfoldable pub kmpc_ordered : ParallelRegion → OmpTaskData → ℕ → Option Bool
kmpc_ordered team task gtid = do
  i ← current_loop task
  l ← get_elem? team.loop_list.items i
  ordered_passes l gtid

unfoldable pub kmpc_end_ordered : ParallelRegion → OmpTaskData → Option ParallelRegion
kmpc_end_ordered team task = do
  i ← current_loop task
  l ← get_elem? team.loop_list.items i
  some (store_loop team i (record l { ordered_count = add int32 l.ordered_count (pos 1) }))

within :
    (first last k : ℕ)
    → (not (ltb_ℤ (pos k) (pos first) || ltb_ℤ (pos last) (pos k)) ≡ true)
      ↔ ((first ≤ k) × (k ≤ last))
within first last k = (λ h. ground arith, λ h. ground arith)

-- The bounds of a thread that has been given request `n`.
request_passes :
    (l : LoopData) (n c k gtid : ℕ)
    → get_elem? l.first_iter gtid ≡ some (pos n)
    → get_elem? l.last_iter gtid ≡ some (pos (n + c))
    → l.ordered_count ≡ pos k
    → n ≤ k
    → k ≤ n + c
    → ordered_passes l gtid ≡ some true
unfolding ordered_passes
request_passes l n c k gtid f t e lo hi = rw (f, t, e) (ap some ((within n (n + c) k).1 (lo, hi)))

-- A number of calls of `__kmpc_end_ordered`, one after the other.
unfoldable pub ended : ℕ → ParallelRegion → OmpTaskData → Option ParallelRegion
ended zero team task = some team
ended (suc m) team task = do team' ← ended m team task; kmpc_end_ordered team' task

-- The loop at index `i` has the bounds of `d`, and its counter is at `k`.
record IsAt (i : ℕ) (d : LoopData) (k : ℕ) (team : ParallelRegion) : Type 0 where
  loop : LoopData
  there : get_elem? team.loop_list.items i ≡ some loop
  firsts : loop.first_iter ≡ d.first_iter
  lasts : loop.last_iter ≡ d.last_iter
  counter : loop.ordered_count ≡ pos k

end-IsAt :
    (i k : ℕ) (d : LoopData) (team : ParallelRegion) (task : OmpTaskData)
    → task.loop_num ≡ suc i
    → suc k < 2 ^ 31
    → IsAt i d k team
    → (team' : ParallelRegion) × (kmpc_end_ordered team task ≡ some team') × IsAt i d (suc k) team'
unfolding kmpc_end_ordered store_loop
end-IsAt i k d team task latest small w =
    let next = record w.loop { ordered_count = add int32 w.loop.ordered_count (pos 1) } in
    (
      store_loop team i next,
      rw (current_loop-suc task i latest, w.there) refl,
      record {
        loop = next;
        there =
            get_elem?-set_self team.loop_list.items i next
              (get_elem?-lt_length team.loop_list.items i w.loop w.there);
        firsts = w.firsts;
        lasts = w.lasts;
        counter =
            ap (λ z. add int32 z (pos 1)) w.counter
            ∙ add-pos k 1 (omega arith)
            ∙ ap pos (omega arith);
      },
    )

ended-IsAt :
    (i k m : ℕ) (d : LoopData) (team : ParallelRegion) (task : OmpTaskData)
    → task.loop_num ≡ suc i
    → k + m < 2 ^ 31
    → IsAt i d k team
    → (team' : ParallelRegion) × (ended m team task ≡ some team') × IsAt i d (k + m) team'
unfolding ended
ended-IsAt i k zero d team task latest small w =
    (team, refl, subst (λ j. IsAt i d j team) (omega arith) w)
ended-IsAt i k (suc m) d team task latest small w =
    let (team', e, v) = ended-IsAt i k m d team task latest (omega arith) w in
    let (team'', e', u) = end-IsAt i (k + m) d team' task latest (omega arith) v in
    (team'', rw e e', subst (λ j. IsAt i d j team'') (omega arith) u)

passes_at :
    (i k n c gtid : ℕ) (d : LoopData) (team : ParallelRegion) (task : OmpTaskData)
    → task.loop_num ≡ suc i
    → IsAt i d k team
    → get_elem? d.first_iter gtid ≡ some (pos n)
    → get_elem? d.last_iter gtid ≡ some (pos (n + c))
    → n ≤ k
    → k ≤ n + c
    → kmpc_ordered team task gtid ≡ some true
unfolding kmpc_ordered
passes_at i k n c gtid d team task latest w f t lo hi =
    rw (current_loop-suc task i latest, w.there)
      (request_passes w.loop n c k gtid (ap (λ v. get_elem? v gtid) w.firsts ∙ f)
        (ap (λ v. get_elem? v gtid) w.lasts ∙ t) w.counter lo hi)

-- On a loop with a dynamic schedule that fits an `int` for the requests (`Fits`, `Serving`), on
-- which `n` requests have been made and `k` ordered regions have ended: the next request is that of
-- thread `g` and the one after it that of another thread `h`, both go through, and `m` more ordered
-- regions end. Where then between `n + 1` and `n + c` of them have ended, `c` being the chunk,
-- `__kmpc_ordered` lets both threads in.
pub ordered_passes-both :
    {l : ℤ} {span s c n i : ℕ} {task : ℕ → OmpTaskData} {team : ParallelRegion} (g h k m : ℕ)
    → Fits l span s c (n + 1)
    → (w : Serving l span s c n i task team) → g < team.num_threads
    → h < team.num_threads
    → g ≢ h
    → w.loop.ordered_count ≡ pos k
    → n + 1 ≤ k + m
    → k + m ≤ n + c
    → (last team' : ParallelRegion) × (requests task team (g ∷ h ∷ [])
        ≡ some (last, chunks l span s c n (g ∷ h ∷ [])))
      × (ended m last (task g) ≡ some team')
      × (kmpc_ordered team' (task g) g ≡ some true)
      × (kmpc_ordered team' (task h) h ≡ some true)
ordered_passes-both {c = c} {n = n} {i = i} {task = task} {team = team} g h k m f w lt lt' ne e lo
      hi =
    let firsts = set w.loop.first_iter g (pos n) in
    let lasts = set w.loop.last_iter g (pos (n + c)) in
    let d = after_request (after_request w.loop c n g) c (n + 1) h in
    let (last, goes, there) = two_requests g h f w lt lt' in
    let start : IsAt i d k last = record {
      loop = d;
      there = there;
      firsts = refl;
      lasts = refl;
      counter = e;
    } in
    let (team', ends, at) =
      ended-IsAt i k m d last (task g) (w.latest g lt) (omega (arith, f.requests, hi)) start in
    (
      last,
      team',
      goes,
      ends,
      passes_at i (k + m) n c g d team' (task g) (w.latest g lt) at
          (get_elem?-set_ne firsts h g (pos (n + 1)) (λ q. ne (sym q))
            ∙ get_elem?-set_self w.loop.first_iter g (pos n) (omega (arith, w.at.firsts)))
          (get_elem?-set_ne lasts h g (pos (n + 1 + c)) (λ q. ne (sym q))
            ∙ get_elem?-set_self w.loop.last_iter g (pos (n + c)) (omega (arith, w.at.lasts)))
          (omega arith) hi,
      passes_at i (k + m) (n + 1) c h d team' (task h) (w.latest h lt') at
          (get_elem?-set_self firsts h (pos (n + 1))
            (omega (arith, w.at.firsts, length-set w.loop.first_iter g (pos n))))
          (get_elem?-set_self lasts h (pos (n + 1 + c))
            (omega (arith, w.at.lasts, length-set w.loop.last_iter g (pos (n + c)))))
          lo (omega arith),
    )
