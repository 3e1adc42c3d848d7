-- ===== src/Tool/Region/Heard.antt =====
-- How often a tool hears of the threads of a region.
use hpx_mp.Base.{
  ℕ, zero, suc, ◌+◌, ◌<◌, ◌≡◌, refl, sym, ◌∙◌, ap, Bool, true, false, not, List, [], ◌∷◌, ◌++◌,
  arith, ◌==◌, ◌&&◌, if◌then◌else◌, update, update_self, update_ne, one_if, count_below,
  count_below-same, count_below-change, All, Bool-cases, inl, inr, Option, none, some,
}
use hpx_mp.Tool.Callbacks.{
  Event, thread_begin, thread_end, parallel_begin, parallel_end, event_id, Ompt, call_of, guarded,
  is_reported, fire,
}
use hpx_mp.Tool.Region.{
  ThreadPc, entering, working, left, thread_begin_call, thread_end_call, parallel_begin_call,
  parallel_end_call, Log, thread_step, thread_steps, region_log, is_call, heard,
}

heard-append : (e : Event) (xs ys : Log) → heard e (xs ++ ys) ≡ heard e xs + heard e ys
heard-append e [] ys = omega arith
heard-append e ((d, c) ∷ xs) ys = omega (arith, heard-append e xs ys)

module _ (ompt : Ompt) (argc : ℕ) (passes : ThreadPc → Bool) (e : Event)
    (each : (pc : ThreadPc)
      → one_if (passes pc) + heard e (thread_step ompt argc pc).1
        ≡ one_if (passes (thread_step ompt argc pc).0)) where
  -- A call is heard each time that a thread comes to pass.
  steps_heard :
      (n : ℕ) (is : List ℕ) (pcs : ℕ → ThreadPc)
      → All (λ i. i < n) is
      → count_below (λ j. passes (pcs j)) n + heard e (thread_steps ompt argc is pcs).1
        ≡ count_below (λ j. passes ((thread_steps ompt argc is pcs).0 j)) n
  unfolding thread_steps
  steps_heard n [] pcs h = omega arith
  steps_heard n (i ∷ is) pcs (h, hs) =
      let pc = (thread_step ompt argc (pcs i)).0 in
      let log = (thread_step ompt argc (pcs i)).1 in
      let pcs' = update pcs i pc in
      omega (
        arith,
        each (pcs i),
        heard-append e log (thread_steps ompt argc is pcs').1,
        steps_heard n is pcs' hs,
        count_below-change (λ j. passes (pcs j)) (λ j. passes (pcs' j)) n i h
            (λ j ne. ap passes (sym (update_ne pcs i j pc ne))),
        ap (λ p. one_if (passes p)) (update_self pcs i pc),
      )

count_below-constant : (b : Bool) (n : ℕ) → count_below (λ j. b) n ≡ (if b then n else 0)
count_below-constant true zero = refl
count_below-constant false zero = refl
count_below-constant true (suc n) = omega (arith, count_below-constant true n)
count_below-constant false (suc n) = omega (arith, count_below-constant false n)

begun : ThreadPc → Bool
begun entering = false
begun working = true
begun left = true

ended : ThreadPc → Bool
ended entering = false
ended working = false
ended left = true

begins :
    (ompt : Ompt) (argc : ℕ) (pc : ThreadPc)
    → one_if (is_call (thread_begin_call ompt argc) && begun pc)
        + heard thread_begin (thread_step ompt argc pc).1
      ≡ one_if (is_call (thread_begin_call ompt argc) && begun (thread_step ompt argc pc).0)
unfolding thread_step event_id begun
begins ompt argc entering = elim (Bool-cases (is_call (thread_begin_call ompt argc))) [
  | inl e ↦ rw e refl
  | inr e ↦ rw e refl
]
begins ompt argc working = omega arith
begins ompt argc left = omega arith

ends :
    (ompt : Ompt) (argc : ℕ) (pc : ThreadPc)
    → one_if (is_call (thread_end_call ompt) && ended pc)
        + heard thread_end (thread_step ompt argc pc).1
      ≡ one_if (is_call (thread_end_call ompt) && ended (thread_step ompt argc pc).0)
unfolding thread_step event_id ended
ends ompt argc entering = elim (Bool-cases (is_call (thread_end_call ompt))) [
  | inl e ↦ rw e refl
  | inr e ↦ rw e refl
]
ends ompt argc working = elim (Bool-cases (is_call (thread_end_call ompt))) [
  | inl e ↦ rw e refl
  | inr e ↦ rw e refl
]
ends ompt argc left = omega arith

-- The threads begin at the start and are all past the end at last.
threads_heard :
    (ompt : Ompt) (argc n : ℕ) (passes : ThreadPc → Bool) (e : Event) (is : List ℕ)
    → ((pc : ThreadPc)
        → one_if (passes pc) + heard e (thread_step ompt argc pc).1
          ≡ one_if (passes (thread_step ompt argc pc).0))
    → passes entering ≡ false
    → All (λ i. i < n) is
    → ((j : ℕ) → j < n → (thread_steps ompt argc is (λ i. entering)).0 j ≡ left)
    → heard e (thread_steps ompt argc is (λ i. entering)).1 ≡ (if passes left then n else 0)
threads_heard ompt argc n passes e is each first h over =
    let pcs' = (thread_steps ompt argc is (λ i. entering)).0 in
    let none_passed : count_below (λ j. passes entering) n ≡ 0 =
      count_below-constant (passes entering) n ∙ ap (λ b. if b then n else 0) first in
    omega (
      arith,
      steps_heard ompt argc passes e each n is (λ i. entering) h,
      none_passed,
      count_below-same (λ j. passes (pcs' j)) (λ j. passes left) n (λ j lt. ap passes (over j lt)),
      count_below-constant (passes left) n,
    )

call_of-is_call : (f : Option ℕ) → is_call (call_of f) ≡ true
call_of-is_call none = refl
call_of-is_call (some f) = refl

fire-is_call :
    (e : Event) (ompt : Ompt) → is_reported e ≡ true → is_call (fire e ompt) ≡ ompt.active e
unfolding fire guarded
fire-is_call e ompt reported = rw reported (elim (Bool-cases (ompt.active e)) [
  | inl on ↦ rw on (call_of-is_call (ompt.callback e))
  | inr off ↦ rw off refl
])

thread_begin-is_call :
    (ompt : Ompt) (argc : ℕ)
    → is_call (thread_begin_call ompt argc)
      ≡ (not (argc == 0) && (ompt.enabled && ompt.active thread_begin))
unfolding thread_begin_call
thread_begin-is_call ompt argc = ground (arith, fire-is_call thread_begin ompt refl)

parallel_begin-is_call :
    (ompt : Ompt)
    → is_call (parallel_begin_call ompt) ≡ (ompt.enabled && ompt.active parallel_begin)
unfolding parallel_begin_call
parallel_begin-is_call ompt = ground (arith, fire-is_call parallel_begin ompt refl)

quiet_begin :
    (ompt : Ompt) (argc : ℕ) (pc : ThreadPc)
    → one_if false + heard parallel_begin (thread_step ompt argc pc).1 ≡ one_if false
unfolding thread_step event_id
quiet_begin ompt argc entering = refl
quiet_begin ompt argc working = refl
quiet_begin ompt argc left = refl

quiet_end :
    (ompt : Ompt) (argc : ℕ) (pc : ThreadPc)
    → one_if false + heard parallel_end (thread_step ompt argc pc).1 ≡ one_if false
unfolding thread_step event_id
quiet_end ompt argc entering = refl
quiet_end ompt argc working = refl
quiet_end ompt argc left = refl

and-false : (b : Bool) → (b && false) ≡ false
and-false true = refl
and-false false = refl

past : (b c : Bool) (n : ℕ) → b ≡ c → (if b && true then n else 0) ≡ (if c then n else 0)
past true c n e = ap (λ d. if d then n else 0) e
past false c n e = ap (λ d. if d then n else 0) e

-- In a region of `n` threads, whose steps come in any order and which are all over: a tool is called
-- once at the start of the region and once at its end, once for the end of each thread, and once
-- for the begin of each thread where the microtask has an argument, each where its callback is
-- active, and for what begins where tools are enabled. Without an argument it hears of no
-- thread's begin.
pub region_log-heard :
    (ompt : Ompt) (argc n : ℕ) (is : List ℕ)
    → All (λ i. i < n) is
    → ((j : ℕ) → j < n → (thread_steps ompt argc is (λ i. entering)).0 j ≡ left)
    → (heard parallel_begin (region_log ompt argc is)
        ≡ one_if (ompt.enabled && ompt.active parallel_begin))
      × (heard parallel_end (region_log ompt argc is) ≡ one_if (ompt.active parallel_end))
      × (heard thread_end (region_log ompt argc is) ≡ (if ompt.active thread_end then n else 0))
      × (heard thread_begin (region_log ompt argc is)
          ≡ (if not (argc == 0) && (ompt.enabled && ompt.active thread_begin) then n else 0))
unfolding region_log event_id begun ended thread_end_call parallel_end_call
region_log-heard ompt argc n is h over =
    let log = (thread_steps ompt argc is (λ i. entering)).1 in
    let last : Log = (parallel_end, parallel_end_call ompt) ∷ [] in
    (
      omega (
        arith,
        heard-append parallel_begin log last,
        threads_heard ompt argc n (λ pc. false) parallel_begin is (quiet_begin ompt argc) refl h
            over,
        ap one_if (parallel_begin-is_call ompt),
      ),
      omega (
        arith,
        heard-append parallel_end log last,
        threads_heard ompt argc n (λ pc. false) parallel_end is (quiet_end ompt argc) refl h over,
        ap one_if (fire-is_call parallel_end ompt refl),
      ),
      omega (
        arith,
        heard-append thread_end log last,
        threads_heard ompt argc n (λ pc. is_call (thread_end_call ompt) && ended pc) thread_end is
            (ends ompt argc) (and-false (is_call (thread_end_call ompt))) h over,
        past (is_call (thread_end_call ompt)) (ompt.active thread_end) n
            (fire-is_call thread_end ompt refl),
      ),
      omega (
        arith,
        heard-append thread_begin log last,
        threads_heard ompt argc n (λ pc. is_call (thread_begin_call ompt argc) && begun pc)
            thread_begin is (begins ompt argc) (and-false (is_call (thread_begin_call ompt argc))) h
            over,
        past (is_call (thread_begin_call ompt argc))
            (not (argc == 0) && (ompt.enabled && ompt.active thread_begin)) n
            (thread_begin-is_call ompt argc),
      ),
    )
