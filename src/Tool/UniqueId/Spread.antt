-- ===== src/Tool/UniqueId/Spread.antt =====
-- The numbers of the threads that have called, and how far each has counted.
use hpx_mp.Base.{
  ℕ, zero, suc, ◌+◌, ◌*◌, ◌/◌, ◌%◌, ◌≤◌, ◌<◌, ◌≡◌, ◌≢◌, ◌⊎◌, inl, refl, Bool, true, not, arith,
  ◌==◌, update, count_below, count_below-le, count_below-change,
}
use hpx_mp.Tool.UniqueId.{Ids, loaded, get_unique_id}

abbrev pub started : (ℕ → ℕ) → ℕ → Bool
started id tid = not (id tid == 0)

-- After `m` calls of threads below `n`: a thread's number is above bit 48 of its `ID`, and its own
-- count below.
pub record IsSpread (n m : ℕ) (s : Ids) : Type 0 where
  pub counted : s.thread ≡ 1 + count_below (started s.id) n
  pub numbered :
      (i : ℕ)
      → (s.id i ≡ 0)
        ⊎ ((1 ≤ s.id i / 281474976710656)
            × (s.id i / 281474976710656 < s.thread)
            × (s.id i % 281474976710656 ≤ m))
  pub apart : (i j : ℕ) → s.id i ≢ 0 → s.id i / 281474976710656 ≡ s.id j / 281474976710656 → i ≡ j

-- A number that was returned is a thread's, and no later than its last.
abbrev pub IsOld : Ids → ℕ → Type 0
IsOld s x = (i : ℕ) × (s.id i ≢ 0) × (x / 281474976710656 ≡ s.id i / 281474976710656) × (x ≤ s.id i)

-- A thread's first call, while there are fewer than 65536 threads.
pub first_call : ℕ → Ids → Ids
first_call tid s = record {
  thread = s.thread + 1;
  id = update s.id tid (s.thread * 281474976710656 + 1);
}

pub first_lem :
    (tid : ℕ) (s : Ids)
    → s.id tid ≡ 0
    → s.thread < 65536
    → get_unique_id true tid s ≡ (first_call tid s, s.thread * 281474976710656 + 1)
unfolding get_unique_id first_call
first_lem tid s new few = rw new (ground (arith, few))

-- A later call.
pub later_call : ℕ → Ids → Ids
later_call tid s = record s { id = update s.id tid (s.id tid + 1) }

pub later_lem :
    (tid : ℕ) (s : Ids)
    → s.id tid ≢ 0
    → s.id tid + 1 < 18446744073709551616
    → get_unique_id true tid s ≡ (later_call tid s, s.id tid + 1)
unfolding get_unique_id later_call
later_lem tid s old short = ground arith

-- A thread that has not called leaves room for its number.
pub thread_room : (n m tid : ℕ) (s : Ids) → tid < n → s.id tid ≡ 0 → IsSpread n m s → s.thread ≤ n
unfolding first_call
thread_room n m tid s h new w =
    let id' = (first_call tid s).id in
    let c = count_below-change (started s.id) (started id') n tid h (λ j ne. ground (arith, ne)) in
    ground (arith, c, w.counted, new, count_below-le (started id') n)

pub first-IsSpread :
    (n m tid : ℕ) (s : Ids)
    → tid < n
    → s.id tid ≡ 0
    → IsSpread n m s
    → IsSpread n (suc m) (first_call tid s)
unfolding first_call
first-IsSpread n m tid s h new w =
    let id' = update s.id tid (s.thread * 281474976710656 + 1) in
    let c = count_below-change (started s.id) (started id') n tid h (λ j ne. ground (arith, ne)) in
    record {
      counted = ground (arith, c, w.counted, new);
      numbered = λ i. ground (arith, w.numbered i, w.counted);
      apart = λ i j ne same. ground (arith, w.numbered i, w.numbered j, w.apart i j, w.counted);
    }

pub later-IsSpread :
    (n m tid : ℕ) (s : Ids)
    → tid < n
    → suc m < 281474976710656
    → s.id tid ≢ 0
    → IsSpread n m s
    → IsSpread n (suc m) (later_call tid s)
unfolding later_call
later-IsSpread n m tid s h short old w =
    let id' = update s.id tid (s.id tid + 1) in
    let c = count_below-change (started s.id) (started id') n tid h (λ j ne. ground (arith, ne)) in
    record {
      counted = ground (arith, c, w.counted, old);
      numbered = λ i. ground (arith, w.numbered i, w.numbered tid);
      apart = λ i j ne same. ground (
        arith,
        w.numbered i,
        w.numbered j,
        w.numbered tid,
        w.apart i j,
        w.apart tid j,
        w.apart i tid,
      );
    }

pub first_differs :
    (n m tid : ℕ) (s : Ids) (y : ℕ)
    → IsSpread n m s
    → IsOld s y
    → s.thread * 281474976710656 + 1 ≢ y
first_differs n m tid s y w (i, ne, same, le) = ground (arith, w.numbered i)

pub later_differs :
    (n m tid : ℕ) (s : Ids) (y : ℕ)
    → suc m < 281474976710656
    → s.id tid ≢ 0
    → IsSpread n m s
    → IsOld s y
    → s.id tid + 1 ≢ y
later_differs n m tid s y short old w (i, ne, same, le) =
    ground (arith, w.numbered tid, w.apart i tid)

pub first-IsOld :
    (tid : ℕ) (s : Ids) (y : ℕ) → s.id tid ≡ 0 → IsOld s y → IsOld (first_call tid s) y
unfolding first_call
first-IsOld tid s y new (i, ne, same, le) = (i, ground (arith, ne), ground arith, ground arith)

pub later-IsOld :
    (n m tid : ℕ) (s : Ids) (y : ℕ)
    → suc m < 281474976710656
    → IsSpread n m s
    → IsOld s y
    → IsOld (later_call tid s) y
unfolding later_call
later-IsOld n m tid s y short w (i, ne, same, le) =
    (i, ground arith, ground (arith, w.numbered tid), ground arith)

pub first_call-own : (tid : ℕ) (s : Ids) → IsOld (first_call tid s) (s.thread * 281474976710656 + 1)
unfolding first_call
first_call-own tid s = (tid, ground arith, ground arith, ground arith)

pub later_call-own : (tid : ℕ) (s : Ids) → IsOld (later_call tid s) (s.id tid + 1)
unfolding later_call
later_call-own tid s = (tid, ground arith, ground arith, ground arith)

none_started : (n : ℕ) → count_below (started (λ i. 0)) n ≡ 0
none_started zero = refl
none_started (suc n) = omega (arith, none_started n)

pub loaded-IsSpread : (n : ℕ) → IsSpread n 0 loaded
unfolding loaded
loaded-IsSpread n = record {
  counted = omega (arith, none_started n);
  numbered = λ i. inl refl;
  apart = λ i j ne. absurd (ne refl);
}
