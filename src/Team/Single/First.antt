-- ===== src/Team/Single/First.antt =====
-- The first thread at the first `single` region of a new team, and the later ones.
use hpx_mp.Base.{
  ap, ◌∙◌, ◌≢◌, List, [], ◌∷◌, All, update, update_ne, ℕ, ◌+◌, ◌≡◌, refl, true, false, arith, ◌==◌,
}
use hpx_mp.Team.{ParallelRegion, OmpTaskData}
use hpx_mp.Team.Single.{kmpc_single}

-- The task of a thread that has come to one more region.
abbrev pub passed : OmpTaskData → OmpTaskData
passed task = record task { single_counter = task.single_counter + 1 }

pub single_late :
    (team : ParallelRegion) (task : OmpTaskData)
    → team.single_counter ≡ 1
    → task.single_counter ≡ 0
    → kmpc_single team task ≡ (team, passed task, false)
unfolding kmpc_single
single_late team task taken fresh =
    let late : (team.single_counter == task.single_counter) ≡ false =
      ground (arith, taken, fresh) in
    rw late refl

pub single_first :
    (team : ParallelRegion) (task : OmpTaskData)
    → team.single_counter ≡ 0
    → task.single_counter ≡ 0
    → kmpc_single team task
      ≡ (record team { single_counter = team.single_counter + 1 }, passed task, true)
unfolding kmpc_single
single_first team task new fresh =
    let first : (team.single_counter == task.single_counter) ≡ true = ground (arith, new, fresh) in
    rw first refl

-- The others have not come yet.
pub still_fresh :
    (task : ℕ → OmpTaskData) (g : ℕ) (t : OmpTaskData) (gs : List ℕ)
    → All (λ j. g ≢ j) gs
    → All (λ j. (task j).single_counter ≡ 0) gs
    → All (λ j. (update task g t j).single_counter ≡ 0) gs
still_fresh task g t [] differ fresh = tt
still_fresh task g t (j ∷ gs) differ fresh = (
  ap (λ (u : OmpTaskData). u.single_counter) (update_ne task g j t differ.0) ∙ fresh.0,
  still_fresh task g t gs differ.1 fresh.1,
)
