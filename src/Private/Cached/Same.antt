-- ===== src/Private/Cached/Same.antt =====
-- Which pointers the calls return.
use hpx_mp.Base.{
  ℕ, ◌+◌, ◌<◌, ◌≡◌, ◌≢◌, ◌↔◌, ◌∙◌, ap, ◌==◌, if◌then◌else◌, ◌⊎◌, inl, inr, Option, none, some, List,
  get_elem?, replicate, update, arith, Option-cases, ℕ_discrete, get_elem?-set_self,
  get_elem?-set_ne, get_elem?-lt_length, zero, suc,
}
use hpx_mp.Private.Cached.{
  Pc, outside, locking, returned, Cached, look, allocate, filled, entry, set_entry, fetch, Step,
  looks, allocates, fetches, goes_on, writes, Steps, here, followed, IsNew,
}

-- The pointers in the vector are below `next` and differ; who has returned has its entry.
record IsKept (s : Cached) : Type 0 where
  below : (i p : ℕ) → entry s.cache i ≡ some (some p) → p < s.next
  apart : (i j p : ℕ) → entry s.cache i ≡ some (some p) → entry s.cache j ≡ some (some p) → i ≡ j
  back : (i p : ℕ) → s.pc i ≡ returned p → entry s.cache i ≡ some (some p)

-- A thread moves to a place where it has returned nothing.
move-IsKept :
    (s : Cached) (tid : ℕ) (p : Pc)
    → ((q : ℕ) → p ≢ returned q)
    → IsKept s
    → IsKept (record s { pc = update s.pc tid p })
move-IsKept s tid p ne w = record {
  below = w.below;
  apart = w.apart;
  back = λ i q e. ground (arith, ne q, w.back i q);
}

replicate-none : (n i p : ℕ) → get_elem? (replicate n none) i ≢ some (some p)
replicate-none zero i p e = cc
replicate-none (suc n) zero p e = cc
replicate-none (suc n) (suc i) p e = replicate-none n i p e

-- A new vector holds no pointer.
entry_of_filled :
    (n i p : ℕ) (c : Option (List (Option ℕ)))
    → entry (some (filled n c)) i ≡ some (some p)
    → entry c i ≡ some (some p)
entry_of_filled n i p none e = absurd (replicate-none n i p e)
entry_of_filled n i p (some entries) e = e

entry-filled :
    (n i p : ℕ) (c : Option (List (Option ℕ)))
    → entry c i ≡ some (some p)
    → entry (some (filled n c)) i ≡ some (some p)
entry-filled n i p none e = cc
entry-filled n i p (some entries) e = e

set_entry_lem :
    (c : Option (List (Option ℕ))) (tid j p : ℕ) (o : Option ℕ)
    → entry c tid ≡ some o
    → entry (set_entry c tid p) j ≡ (if tid == j then some (some p) else entry c j)
set_entry_lem none tid j p o e = cc
set_entry_lem (some entries) tid j p o e = elim (ℕ_discrete tid j) [
  | yes same ↦
      let there = get_elem?-set_self entries tid (some p) (get_elem?-lt_length entries tid o e) in
      ground (arith, same, there)
  | no ne ↦ ground (arith, ne, get_elem?-set_ne entries tid j (some p) ne)
]

allocate-IsKept :
    (n tid : ℕ) (s : Cached) → s.pc tid ≡ locking → IsKept s → IsKept (allocate n tid s)
unfolding allocate
allocate-IsKept n tid s at w = record {
  below = λ i p e. w.below i p (entry_of_filled n i p s.cache e);
  apart = λ i j p e f.
      w.apart i j p (entry_of_filled n i p s.cache e) (entry_of_filled n j p s.cache f);
  back = λ i p e. entry-filled n i p s.cache (w.back i p (ground (arith, at)));
}

-- The thread's own entry is made, and no other is touched.
new_entry-IsKept :
    (s : Cached) (tid : ℕ) (mem : ℕ → ℕ)
    → entry s.cache tid ≡ some none
    → IsKept s
    → IsKept (record {
      cache = set_entry s.cache tid s.next;
      next = s.next + 1;
      mem = mem;
      pc = update s.pc tid (returned s.next);
    })
new_entry-IsKept s tid mem e w =
    let now = λ (j : ℕ). set_entry_lem s.cache tid j s.next none e in
    record {
      below = λ i p h. ground (arith, now i, w.below i p);
      apart = λ i j p h k. ground (arith, now i, now j, w.below i p, w.below j p, w.apart i j p);
      back = λ i p h. ground (arith, now i, w.back i p);
    }

-- A call that returns a pointer found it in the thread's entry, or made it.
fetch_done :
    (data_at tid : ℕ) (s t : Cached)
    → fetch data_at tid s ≡ some t
    → ((p : ℕ) × (entry s.cache tid ≡ some (some p))
        × (t ≡ record s { pc = update s.pc tid (returned p) }))
      ⊎ ((entry s.cache tid ≡ some none)
          × (t ≡ record {
            cache = set_entry s.cache tid s.next;
            next = s.next + 1;
            mem = update s.mem s.next (s.mem data_at);
            pc = update s.pc tid (returned s.next);
          }))
unfolding fetch
fetch_done data_at tid s t e = elim (Option-cases (entry s.cache tid)) [
  | inl gone ↦ absurd (ground (arith, gone))
  | inr (o, at) ↦ elim (Option-cases o) [
    | inl new ↦ inr (at ∙ ap some new, ground (arith, at, new))
    | inr (p, old) ↦ inl (p, at ∙ ap some old, ground (arith, at, old))
  ]
]

fetch-IsKept : (data_at tid : ℕ) (s t : Cached) → fetch data_at tid s ≡ some t → IsKept s → IsKept t
fetch-IsKept data_at tid s t e w = elim (fetch_done data_at tid s t e) [
  | inl (p, at, same) ↦
      rw same (record {
        below = w.below;
        apart = w.apart;
        back = λ i q h. ground (arith, at, w.back i q);
      })
  | inr (at, same) ↦ rw same (new_entry-IsKept s tid _ at w)
]

Step-IsKept : (m : ℕ) (s t : Cached) → Step m s t → IsKept s → IsKept t
unfolding look
Step-IsKept m s t (looks tid e) w = move-IsKept s tid _ (λ q. ground arith) w
Step-IsKept m s t (allocates tid e) w = allocate-IsKept m tid s e w
Step-IsKept m s t (fetches data_at tid u e f) w = fetch-IsKept data_at tid s u f w
Step-IsKept m s t (goes_on tid p e) w = move-IsKept s tid outside (λ q. ground arith) w
Step-IsKept m s t (writes a v) w = record { below = w.below; apart = w.apart; back = w.back }

-- An entry stays.
Step-entry :
    (m : ℕ) (s t : Cached) (i p : ℕ)
    → Step m s t
    → entry s.cache i ≡ some (some p)
    → entry t.cache i ≡ some (some p)
unfolding look allocate
Step-entry m s t i p (looks tid e) h = h
Step-entry m s t i p (allocates tid e) h = entry-filled m i p s.cache h
Step-entry m s t i p (fetches data_at tid u e f) h = elim (fetch_done data_at tid s u f) [
  | inl (q, at, same) ↦ rw same h
  | inr (at, same) ↦ rw same (ground (arith, set_entry_lem s.cache tid i s.next none at))
]
Step-entry m s t i p (goes_on tid q e) h = h
Step-entry m s t i p (writes a v) h = h

Steps-IsKept : (m : ℕ) (s t : Cached) → Steps m s t → IsKept s → IsKept t
Steps-IsKept m s t here w = w
Steps-IsKept m s t (followed {t = r} past st) w = Step-IsKept m r t st (Steps-IsKept m s r past w)

Steps-entry :
    (m : ℕ) (s t : Cached) (i p : ℕ)
    → Steps m s t
    → entry s.cache i ≡ some (some p)
    → entry t.cache i ≡ some (some p)
Steps-entry m s t i p here h = h
Steps-entry m s t i p (followed {t = r} past st) h =
    Step-entry m r t i p st (Steps-entry m s r i p past h)

new-IsKept : (s : Cached) → IsNew s → IsKept s
new-IsKept s (no_cache, away) = record {
  below = λ i p e. absurd (ground (arith, no_cache));
  apart = λ i j p e f. absurd (ground (arith, no_cache));
  back = λ i p e. absurd (ground (arith, away i));
}

-- From a start with no vector, in a team of `m` threads and whatever the order of the threads'
-- steps: of two calls that have returned, at the same time or one later, the pointers are equal
-- exactly where the thread is the same.
pub threadprivate-same :
    (m : ℕ) (new s t : Cached) (i j p q : ℕ)
    → IsNew new
    → Steps m new s
    → Steps m s t
    → s.pc i ≡ returned p
    → t.pc j ≡ returned q
    → (p ≡ q) ↔ (i ≡ j)
threadprivate-same m new s t i j p q fresh before after e f =
    let w = Steps-IsKept m new s before (new-IsKept new fresh) in
    let v = Steps-IsKept m s t after w in
    let mine = Steps-entry m s t i p after (w.back i p e) in
    let yours = v.back j q f in
    (λ h. v.apart i j p mine (ground (arith, h)), λ h. ground (arith, h))
