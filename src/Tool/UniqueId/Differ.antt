-- ===== src/Tool/UniqueId/Differ.antt =====
-- No two calls return one number.
use hpx_mp.Base.{
  AllDiffer, count_below-le, ℕ, suc, ◌+◌, ◌<◌, true, List, [], ◌∷◌, arith, All, length, All-imp,
  ℕ_discrete,
}
use hpx_mp.Tool.UniqueId.{Ids, loaded, get_unique_id, unique_ids}
use hpx_mp.Tool.UniqueId.Spread.{
  IsSpread, IsOld, started, first_lem, later_lem, thread_room, first-IsSpread, later-IsSpread,
  first_differs, later_differs, first-IsOld, later-IsOld, first_call-own, later_call-own,
  loaded-IsSpread,
}

-- A state, what it has returned, and a bound on the calls.
record IsFresh (n m : ℕ) (s : Ids) (out : List ℕ) : Type 0 where
  spread : IsSpread n m s
  old : All (IsOld s) out
  differ : AllDiffer out

call-IsFresh :
    (n m tid : ℕ) (s : Ids) (out : List ℕ)
    → tid < n
    → n < 65536
    → suc m < 281474976710656
    → IsFresh n m s out
    → IsFresh n (suc m) (get_unique_id true tid s).0 ((get_unique_id true tid s).1 ∷ out)
call-IsFresh n m tid s out h few short w = elim (ℕ_discrete (s.id tid) 0) [
  | yes new ↦
      let room = thread_room n m tid s h new w.spread in
      rw (first_lem tid s new (omega (arith, room))) (record {
        spread = first-IsSpread n m tid s h new w.spread;
        old = (first_call-own tid s, All-imp _ _ out (λ y. first-IsOld tid s y new) w.old);
        differ = (All-imp _ _ out (λ y. first_differs n m tid s y w.spread) w.old, w.differ);
      })
  | no old ↦
      rw
        (later_lem tid s old (
          ground (arith, w.spread.numbered tid, w.spread.counted, count_below-le (started s.id) n)))
        (record {
          spread = later-IsSpread n m tid s h short old w.spread;
          old = (
            later_call-own tid s,
            All-imp _ _ out (λ y. later-IsOld n m tid s y short w.spread) w.old,
          );
          differ =
              (All-imp _ _ out (λ y. later_differs n m tid s y short old w.spread) w.old, w.differ);
        })
]

calls-IsFresh :
    (n m : ℕ) (s : Ids) (tids out : List ℕ)
    → n < 65536
    → m + length tids < 281474976710656
    → All (λ tid. tid < n) tids
    → IsFresh n m s out
    → AllDiffer (unique_ids s tids out).1
unfolding unique_ids
calls-IsFresh n m s [] out few short below w = w.differ
calls-IsFresh n m s (tid ∷ tids) out few short below w =
    calls-IsFresh n (suc m) (get_unique_id true tid s).0 tids ((get_unique_id true tid s).1 ∷ out)
      few (omega arith) below.1 (call-IsFresh n m tid s out below.0 few (omega arith) w)

-- Of fewer than 65536 threads, in whatever order they call once the runtime has started, no two
-- calls return the same number, while all together are fewer than 2^48.
unique_ids-differ :
    (n : ℕ) (tids : List ℕ)
    → n < 65536
    → length tids < 281474976710656
    → All (λ tid. tid < n) tids
    → AllDiffer (unique_ids loaded tids []).1
unique_ids-differ n tids few short below =
    calls-IsFresh n 0 loaded tids [] few (omega arith) below
      (record { spread = loaded-IsSpread n; old = tt; differ = tt })
