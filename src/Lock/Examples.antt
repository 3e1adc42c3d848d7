-- ===== src/Lock/Examples.antt =====
-- One lock that two threads want, and critical regions of two teams.
use hpx_mp.Base.{
  ℕ, zero, suc, ◌≡◌, ◌⊎◌, refl, ap, Bool, true, false, Option, none, some, arith, if◌then◌else◌,
  ◌==◌,
}
use hpx_mp.Lock.{Spinlock, Locks, waits, omp_init_lock, kmpc_set_nest_lock}
use hpx_mp.Lock.Families.{Family, omp, kmpc_nest, set_lock, test_lock}
use hpx_mp.Lock.Exclusive.{System, inits, sets, Reach, start, later, mark}
use hpx_mp.Lock.Held.{held_lock}
use hpx_mp.Lock.Critical
use hpx_mp.Lock.Critical.{kmpc_critical, critical-excludes}

abbrev spin_flag : Bool → Option Bool
spin_flag true = none
spin_flag false = some true

abbrev try_flag : Bool → Bool × Bool
try_flag true = (true, false)
try_flag false = (true, true)

spin_flag-free : (m : Bool) → m ≡ false → (l : Bool) × (spin_flag m ≡ some l) × (l ≡ true)
spin_flag-free true h = absurd (ground (arith, h))
spin_flag-free false h = (true, refl, refl)

try_flag-free : (m : Bool) → m ≡ false → ((try_flag m).1 ≡ true) × ((try_flag m).0 ≡ true)
try_flag-free true h = cc
try_flag-free false h = (refl, refl)

try_flag-held : (m : Bool) → m ≡ true → try_flag m ≡ (m, false)
try_flag-held true h = refl
try_flag-held false h = cc

-- A spinlock that is a flag.
abbrev flag : Spinlock
flag = record {
  State = Bool;
  fresh = false;
  lock = spin_flag;
  try_lock = try_flag;
  unlock = λ m. false;
  held = λ m. m;
  fresh_free = refl;
  lock_free = spin_flag-free;
  lock_held = λ m held. ap spin_flag held;
  try_lock_free = try_flag-free;
  try_lock_held = try_flag-held;
  unlock_frees = λ m. refl;
}

-- Thread 5 makes the lock and sets it.
abbrev one_lock : Locks flag
one_lock = record { next = 1; cell = λ a. if 0 == a then some false else none }

abbrev locked_lock : Locks flag
locked_lock = record { next = 1; cell = λ a. if 0 == a then some true else one_lock.cell a }

abbrev five_holds : System flag
five_holds = record { locks = locked_lock; holds = mark flag 5 0 true (λ i a. false) }

five_holds-Reach : Reach flag five_holds
unfolding omp_init_lock kmpc_set_nest_lock
five_holds-Reach = later (later start (inits omp)) (sets kmpc_nest 5 0 locked_lock refl)

held_lock_example :
    ((j : ℕ) → (5 ≡ j) ⊎ (five_holds.holds j 0 ≡ false))
    × ((f : Family)
        → (set_lock flag f 0 locked_lock ≡ waits)
          × (test_lock flag f 0 locked_lock ≡ some (locked_lock, 0)))
held_lock_example = held_lock flag five_holds 5 0 five_holds-Reach refl

-- Threads 0 and 1 are of team 0, the others of team 1.
abbrev team_of : ℕ → ℕ
team_of zero = 0
team_of (suc zero) = 0
team_of (suc (suc i)) = 1

abbrev zero_inside : Critical.Regions flag team_of
zero_inside = record {
  crit_mtx = λ team. if 0 == team then true else false;
  inside = λ i. if 0 == i then some 7 else none;
}

zero_inside-Reach : Critical.Reach flag team_of zero_inside
unfolding kmpc_critical
zero_inside-Reach =
    Critical.Reach.later Critical.Reach.start (Critical.Step.enters 0 7 zero_inside.crit_mtx refl)

critical-excludes_example :
    ((◌≡◌ {A = ℕ} 0 1) ⊎ (zero_inside.inside 1 ≡ none))
    × ((b : ℕ) → kmpc_critical flag team_of 1 b zero_inside.crit_mtx ≡ none)
critical-excludes_example =
    critical-excludes flag team_of zero_inside 0 7 zero_inside-Reach refl 1 refl
