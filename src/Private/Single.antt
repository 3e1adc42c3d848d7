-- ===== src/Private/Single.antt =====
-- A `single` region with `copyprivate` of src/intel_hpxMP.cpp: `__kmpc_single` by every thread, then
-- `__kmpc_copyprivate` with what it returned.
use hpx_mp.Base.{
  ℕ, ◌+◌, ◌<◌, ◌≡◌, ◌⊎◌, refl, ◌∙◌, ap, Bool, false, ◌||◌, List, [], ◌∷◌, arith, ◌==◌,
  if◌then◌else◌, All, AllDiffer, update,
}
use hpx_mp.Team.{ParallelRegion, OmpTaskData}
use hpx_mp.Team.Single.{singles, times}
use hpx_mp.Team.Single.First.{passed, single_late, single_first, still_fresh}
use hpx_mp.Private.Copy.{Arguments, IsCopy, kmpc_copyprivate, kmpc_copyprivate-shares}

-- `didit`: the threads whose `__kmpc_single` returned 1.
abbrev pub ran : List (ℕ × ℕ) → ℕ → Bool
ran [] j = false
ran ((region, g) ∷ won) j = (g == j) || ran won j

-- What a list of threads does after one of them has come.
abbrev after :
    (ℕ → OmpTaskData)
    → ℕ
    → List ℕ
    → List (ℕ × ℕ)
    → ParallelRegion × OmpTaskData × Bool
    → List (ℕ × ℕ)
after task g gs won k =
    (singles k.0 (update task g k.1) gs (if k.2 then ((task g).single_counter, g) ∷ won else won)).2

-- Threads that come once each, after the first.
losers :
    (team : ParallelRegion) (task : ℕ → OmpTaskData) (gs : List ℕ) (won : List (ℕ × ℕ))
    → team.single_counter ≡ 1
    → All (λ j. (task j).single_counter ≡ 0) gs
    → AllDiffer gs
    → (singles team task gs won).2 ≡ won
unfolding singles
losers team task [] won taken fresh differ = refl
losers team task (g ∷ gs) won taken fresh differ =
    ap (after task g gs won) (single_late team (task g) taken fresh.0)
    ∙ losers team (update task g (passed (task g))) gs won taken
        (still_fresh task g (passed (task g)) gs differ.0 fresh.1) differ.1

-- The first thread runs the region, alone.
first_wins :
    (team : ParallelRegion) (task : ℕ → OmpTaskData) (g : ℕ) (gs : List ℕ)
    → team.single_counter ≡ 0
    → All (λ j. (task j).single_counter ≡ 0) (g ∷ gs)
    → AllDiffer (g ∷ gs)
    → (singles team task (g ∷ gs) []).2 ≡ ((task g).single_counter, g) ∷ []
unfolding singles
first_wins team task g gs new fresh differ =
    ap (after task g gs []) (single_first team (task g) new fresh.0)
    ∙ losers (record team { single_counter = team.single_counter + 1 })
        (update task g (passed (task g))) gs (((task g).single_counter, g) ∷ [])
        (omega (arith, new)) (still_fresh task g (passed (task g)) gs differ.0 fresh.1) differ.1

module _ {V : Type 0} (cpy_func : ℕ → ℕ → (ℕ → V) → ℕ → V) where
  -- Each thread comes to the region once, in an order of which `g` is the first; `cpy_data` is
  -- where each has its variable.
  abbrev pub args : ParallelRegion → (ℕ → OmpTaskData) → List ℕ → (ℕ → ℕ) → Arguments cpy_func
  args team task order cpy_data = record {
    cpy_data = cpy_data;
    didit = ran (singles team task order []).2;
  }

  -- In a team whose threads come to their first `single` region, each once and whatever the order,
  -- and then to `__kmpc_copyprivate` with what `__kmpc_single` returned, in whatever orders before
  -- and after its first barrier: if `cpy_func` copies, every thread that copies ends with the value
  -- that the first one to come had; every other cell keeps its value or has that one.
  pub single-shares :
      (team : ParallelRegion) (task : ℕ → OmpTaskData) (cpy_data : ℕ → ℕ) (g : ℕ)
      (gs arrive copiers : List ℕ) (shown : ℕ) (mem : ℕ → V)
      → IsCopy cpy_func
      → team.single_counter ≡ 0
      → All (λ j. (task j).single_counter ≡ 0) (g ∷ gs)
      → AllDiffer (g ∷ gs)
      → 0 < times g arrive
      → let shared =
          kmpc_copyprivate cpy_func (args team task (g ∷ gs) cpy_data) arrive copiers shown mem in
        All (λ j. shared (cpy_data j) ≡ mem (cpy_data g)) copiers
        × ((a : ℕ) → (shared a ≡ mem a) ⊎ (shared a ≡ mem (cpy_data g)))
  single-shares team task cpy_data g gs arrive copiers shown mem copies new fresh differ came =
      kmpc_copyprivate-shares cpy_func (args team task (g ∷ gs) cpy_data) g arrive copiers shown mem
        copies
        (λ j. ap (λ won. ran won j) (first_wins team task g gs new fresh differ) ∙ ground arith)
        came
