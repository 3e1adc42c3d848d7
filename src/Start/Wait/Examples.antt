-- ===== src/Start/Wait/Examples.antt =====
-- Runs of `start_hpx` against `wait_for_startup`.
use hpx_mp.Base.{◌≤◌, ◌<◌, ◌≡◌, ◌≢◌, ◌⊎◌, refl, false}
use hpx_mp.Start.Wait.{
  StartupPc, starting, acquiring, over, testing, asleep, returned, nobody, the_main, Startup,
  hpx_start, Step, starts, enters, tests, relocks, Reach, start, later, spurious, none_yet,
  one_more,
}
use hpx_mp.Start.Wait.Returns.{start_hpx-returns}

abbrev in_test : Startup
in_test = record { running = false; startup_mtx = the_main; startup = starting; main = testing }

abbrev waiting : Startup
waiting = record { running = false; startup_mtx = nobody; startup = starting; main = asleep }

waits : Reach 0 waiting
unfolding hpx_start
waits = later {t = waiting} (later {t = in_test} start (enters refl refl)) (tests refl)

-- A wait that ends by itself: `start_hpx` returns before HPX has started.
abbrev too_early : Startup
too_early = record { running = false; startup_mtx = nobody; startup = starting; main = returned }

returns_early : Reach 1 too_early
returns_early = later {t = too_early} (spurious waits refl) (relocks refl refl)

start_hpx-returns_example :
    (◌≤◌ 1 12)
    × (((◌≡◌ {A = StartupPc} acquiring over) × (asleep ≡ returned))
        ⊎ ((u : Startup) × Step (record waiting { startup = acquiring }) u)
        ⊎ ((◌<◌ 0 0) × (◌≡◌ {A = StartupPc} acquiring acquiring) × (asleep ≡ returned)))
    × ((◌≡◌ {A = StartupPc} acquiring over) ⊎ (asleep ≢ returned) ⊎ (◌<◌ 0 0))
start_hpx-returns_example =
    start_hpx-returns 0 1 waiting (record waiting { startup = acquiring }) waits
      (one_more none_yet (starts refl))
