-- ===== src/Team/Single.antt =====
-- `__kmpc_single` of src/intel_hpxMP.cpp, on a thread of HPX: who runs a `single` region.
pub mod First
use hpx_mp.Base.{
  ℕ, suc, ◌+◌, ◌≤◌, ◌≡◌, ◌∙◌, Bool, List, [], ◌∷◌, arith, ◌==◌, if◌then◌else◌, update, update-all,
  ==_iff, subst, Bool-cases, inl, inr,
}
use hpx_mp.Team.{ParallelRegion, OmpTaskData}

-- The counters are compared under `single_mtx`; a thread advances its own counter afterwards.
unfoldable pub kmpc_single : ParallelRegion → OmpTaskData → ParallelRegion × OmpTaskData × Bool
kmpc_single team task =
    let do_work = team.single_counter == task.single_counter in
    (
      if do_work then record team { single_counter = team.single_counter + 1 } else team,
      record task { single_counter = task.single_counter + 1 },
      do_work,
    )

-- The threads of a list come to their next `single` region one after the other. The regions that
-- are run, by whom: the latest first.
unfoldable pub singles :
    ParallelRegion
    → (ℕ → OmpTaskData)
    → List ℕ
    → List (ℕ × ℕ)
    → ParallelRegion × (ℕ → OmpTaskData) × List (ℕ × ℕ)
singles team task [] won = (team, task, won)
singles team task (g ∷ gs) won =
    let (team', t, do_work) = kmpc_single team (task g) in
    singles team' (update task g t) gs (if do_work then ((task g).single_counter, g) ∷ won else won)

-- The regions run are those below a number, each once, the latest first.
abbrev pub CountsDown : List (ℕ × ℕ) → ℕ → Type 0
CountsDown [] n = n ≡ 0
CountsDown ((region, g) ∷ won) n = (n ≡ suc region) × CountsDown won region

-- No thread is ahead of the team, and every region that a thread has left has been run.
pub record IsFair (team : ParallelRegion) (task : ℕ → OmpTaskData) (won : List (ℕ × ℕ))
    : Type 0 where
  pub once : CountsDown won team.single_counter
  pub behind : (g : ℕ) → (task g).single_counter ≤ team.single_counter

single-IsFair :
    (team : ParallelRegion) (task : ℕ → OmpTaskData) (won : List (ℕ × ℕ)) (g : ℕ)
    → IsFair team task won
    → IsFair
        (kmpc_single team (task g)).0
        (update task g (kmpc_single team (task g)).1)
        (if (kmpc_single team (task g)).2 then ((task g).single_counter, g) ∷ won else won)
unfolding kmpc_single
single-IsFair team task won g w =
    let now = (task g).single_counter in
    let t = record (task g) { single_counter = now + 1 } in
    elim (Bool-cases (team.single_counter == (task g).single_counter)) [
      | inl first ↦
          let same : team.single_counter ≡ now = (==_iff _ _).0 first in
          rw first (record {
            once = (omega (arith, same), subst (CountsDown won) same w.once);
            behind =
                update-all (λ j (u : OmpTaskData). u.single_counter ≤ team.single_counter + 1) task
                  g t (omega (arith, same)) (λ j ne. omega (arith, w.behind j));
          })
      | inr later ↦ rw later (record {
        once = w.once;
        behind =
            update-all (λ j (u : OmpTaskData). u.single_counter ≤ team.single_counter) task g t
              (ground (arith, w.behind g)) (λ j ne. w.behind j);
      })
    ]

singles-IsFair :
    (team : ParallelRegion) (task : ℕ → OmpTaskData) (gs : List ℕ) (won : List (ℕ × ℕ))
    → IsFair team task won
    → IsFair (singles team task gs won).0 (singles team task gs won).1 (singles team task gs won).2
unfolding singles
singles-IsFair team task [] won w = w
singles-IsFair team task (g ∷ gs) won w =
    let (team', t, do_work) = kmpc_single team (task g) in
    singles-IsFair team' (update task g t) gs
      (if do_work then ((task g).single_counter, g) ∷ won else won)
      (single-IsFair team task won g w)

-- The number of times that a thread is in a list.
abbrev pub times : ℕ → List ℕ → ℕ
times g [] = 0
times g (j ∷ gs) = (if j == g then 1 else 0) + times g gs

one_time :
    (team : ParallelRegion) (task : ℕ → OmpTaskData) (j g : ℕ)
    → (update task j (kmpc_single team (task j)).1 g).single_counter
      ≡ (task g).single_counter + (if j == g then 1 else 0)
unfolding kmpc_single
one_time team task j =
    update-all
      (λ k (u : OmpTaskData).
        u.single_counter ≡ (task k).single_counter + (if j == k then 1 else 0))
      task j (kmpc_single team (task j)).1 (ground arith) (λ k ne. ground arith)

singles-times :
    (team : ParallelRegion) (task : ℕ → OmpTaskData) (gs : List ℕ) (won : List (ℕ × ℕ)) (g : ℕ)
    → ((singles team task gs won).1 g).single_counter ≡ (task g).single_counter + times g gs
unfolding singles
singles-times team task [] won g = omega arith
singles-times team task (j ∷ gs) won g =
    let (team', t, do_work) = kmpc_single team (task j) in
    singles-times team' (update task j t) gs
      (if do_work then ((task j).single_counter, j) ∷ won else won) g
    ∙ omega (arith, one_time team task j g)

-- In a new team, whatever the order in which its threads come to their `single` regions, the
-- regions that have been run are those below the team's counter, each by one thread, and every
-- region that a thread has come to is among them.
pub singles-CountsDown :
    (team : ParallelRegion) (task : ℕ → OmpTaskData) (gs : List ℕ)
    → team.single_counter ≡ 0
    → ((g : ℕ) → (task g).single_counter ≡ 0)
    → CountsDown (singles team task gs []).2 (singles team task gs []).0.single_counter
      × ((g : ℕ) → times g gs ≤ (singles team task gs []).0.single_counter)
singles-CountsDown team task gs new fresh =
    let w =
      singles-IsFair team task gs []
        (record { once = new; behind = λ g. omega (arith, fresh g) }) in
    (w.once, λ g. omega (arith, w.behind g, fresh g, singles-times team task gs [] g))
