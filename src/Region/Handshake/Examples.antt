-- ===== src/Region/Handshake/Examples.antt =====
-- A caller that sleeps, is woken without a notification and sleeps again.
use hpx_mp.Base.{◌≤◌, ◌≡◌, ◌≢◌, ◌⊎◌, refl}
use hpx_mp.Region.Handshake.{
  over, asleep, returned, Handshake, registered, Step, acquires, forks, enters, tests, relocks,
  Reach, start, later, spurious, Run, none_yet, one_more,
}
use hpx_mp.Region.Handshake.Returns.{fork-returns}

abbrev caller_asleep : Handshake
caller_asleep = record registered { caller = asleep }

caller_asleep-Reach : Reach caller_asleep
unfolding registered
caller_asleep-Reach =
    later
      (later (spurious (later (later start (enters refl refl)) (tests refl)) refl)
        (relocks refl refl))
      (tests refl)

after_fork : (t : Handshake) × Run caller_asleep 2 t
unfolding registered
after_fork = (_, one_more (one_more none_yet (forks refl)) (acquires refl refl))

fork-returns_example :
    (2 ≤ 23)
    × (((after_fork.0.worker ≡ over) × (after_fork.0.caller ≡ returned))
        ⊎ ((u : Handshake) × Step after_fork.0 u))
    × ((after_fork.0.worker ≡ over) ⊎ (after_fork.0.caller ≢ returned))
fork-returns_example = fork-returns caller_asleep after_fork.0 2 caller_asleep-Reach after_fork.1
