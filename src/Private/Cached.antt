-- ===== src/Private/Cached.antt =====
-- `__kmpc_threadprivate_cached` of src/intel_hpxMP.cpp: every thread's copy of a variable, found
-- through a vector of pointers that the first thread to come allocates. The threads are those of
-- one team. A step is what a thread does up to the next access that another can come before.
pub mod Same
use hpx_mp.Base.{
  ℕ, ◌+◌, ◌≡◌, Bool, true, false, Option, none, some, List, get_elem?, set, replicate, update,
}

-- Where a thread is: not in a call, at the mutex because it found no vector, at its own entry of
-- the vector, or back with a pointer.
pub data Pc : Type 0 where
  outside locking fetching : Pc
  returned : ℕ → Pc

-- `*cache`, the next address that `new` gives, the memory (a block is one number), and the threads.
pub record Cached : Type 0 where
  pub cache : Option (List (Option ℕ))
  pub next : ℕ
  pub mem : ℕ → ℕ
  pub pc : ℕ → Pc

abbrev looked : Option (List (Option ℕ)) → Pc
looked none = locking
looked (some entries) = fetching

-- The first `if(!(*cache))`.
unfoldable pub look : ℕ → Cached → Cached
look tid s = record s { pc = update s.pc tid (looked s.cache) }

abbrev filled : ℕ → Option (List (Option ℕ)) → List (Option ℕ)
filled num_threads none = replicate num_threads none
filled num_threads (some entries) = entries

-- Under the `thread_mtx` of the team, so that no other thread of it comes between: the second `if(!(*cache))` and the `calloc`.
unfoldable pub allocate : ℕ → ℕ → Cached → Cached
allocate num_threads tid s = record s {
  cache = some (filled num_threads s.cache);
  pc = update s.pc tid fetching;
}

abbrev entry : Option (List (Option ℕ)) → ℕ → Option (Option ℕ)
entry none tid = none
entry (some entries) tid = get_elem? entries tid

abbrev set_entry : Option (List (Option ℕ)) → ℕ → ℕ → Option (List (Option ℕ))
set_entry none tid p = none
set_entry (some entries) tid p = some (set entries tid (some p))

abbrev fetched : ℕ → ℕ → Cached → Option (Option ℕ) → Option Cached
fetched data_at tid s none = none
fetched data_at tid s (some none) = some (record {
  cache = set_entry s.cache tid s.next;
  next = s.next + 1;
  mem = update s.mem s.next (s.mem data_at);
  pc = update s.pc tid (returned s.next);
})
fetched data_at tid s (some (some p)) = some (record s { pc = update s.pc tid (returned p) })

-- The rest: `new`, `memcpy` from the variable at its first use, and the pointer. `none` is an
-- entry behind the end of the vector.
unfoldable pub fetch : ℕ → ℕ → Cached → Option Cached
fetch data_at tid s = fetched data_at tid s (entry s.cache tid)

-- A step of a thread of one team, whose threads share `thread_mtx`, or of the program.
pub data Step (num_threads : ℕ) (s : Cached) : Cached → Type 0 where
  looks : (tid : ℕ) → s.pc tid ≡ outside → Step num_threads s (look tid s)
  allocates : (tid : ℕ) → s.pc tid ≡ locking → Step num_threads s (allocate num_threads tid s)
  fetches :
      (data_at tid : ℕ) (t : Cached)
      → s.pc tid ≡ fetching
      → fetch data_at tid s ≡ some t
      → Step num_threads s t
  goes_on :
      (tid p : ℕ)
      → s.pc tid ≡ returned p
      → Step num_threads s (record s { pc = update s.pc tid outside })
  writes : (a : ℕ) (v : ℕ) → Step num_threads s (record s { mem = update s.mem a v })

pub data Steps (num_threads : ℕ) (s : Cached) : Cached → Type 0 where
  here : Steps num_threads s s
  followed : {t u : Cached} → Steps num_threads s t → Step num_threads t u → Steps num_threads s u

-- No vector, and no thread in a call.
abbrev pub IsNew : Cached → Type 0
IsNew s = (s.cache ≡ none) × ((tid : ℕ) → s.pc tid ≡ outside)
