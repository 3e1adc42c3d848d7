-- ===== src/Private/Examples.antt =====
-- Three threads that share a value, and two that come to a variable of their own at once.
use hpx_mp.Base.{
  ℕ, ◌+◌, ◌*◌, ◌≡◌, ◌↔◌, ◌⊎◌, refl, Option, none, some, List, [], ◌∷◌, arith, All, update,
  update_self, update_ne,
}
use hpx_mp.Team.{ParallelRegion, OmpTaskData, parallel_region}
use hpx_mp.Team.Threads.{implicit_task, initial_task}
use hpx_mp.Private.Copy.{IsCopy, kmpc_copyprivate}
use hpx_mp.Private.Single.{args, single-shares}
use hpx_mp.Private.Cached.{
  outside, Cached, look, allocate, fetch, Steps, looks, allocates, fetches, here, followed,
}
use hpx_mp.Private.Cached.Same.{threadprivate-same}

-- An assignment.
abbrev assign : ℕ → ℕ → (ℕ → ℕ) → ℕ → ℕ
assign d s mem = update mem d (mem s)

assign-IsCopy : IsCopy assign
assign-IsCopy = record {
  copies = λ d s mem. update_self mem d (mem s);
  leaves = λ d s a mem ne. update_ne mem d a (mem s) ne;
}

-- Thread `i` of three has its variable at 10 + `i`; thread 1 comes to the region first.
abbrev cpy_data : ℕ → ℕ
cpy_data i = 10 + i

abbrev team : ParallelRegion
team = parallel_region 3

abbrev task : ℕ → OmpTaskData
task i = implicit_task i team (initial_task 3)

abbrev arrive : List ℕ
arrive = 2 ∷ 1 ∷ 0 ∷ []

abbrev copiers : List ℕ
copiers = 0 ∷ 2 ∷ 1 ∷ []

abbrev before : ℕ → ℕ
before a = a * a

single-shares_example :
    let shared =
      kmpc_copyprivate assign
        (args assign team task (1 ∷ 2 ∷ 0 ∷ []) cpy_data)
        arrive
        copiers
        99
        before in
    All (λ (j : ℕ). shared (cpy_data j) ≡ 121) copiers
    × ((a : ℕ) → (shared a ≡ before a) ⊎ (shared a ≡ 121))
unfolding parallel_region implicit_task
single-shares_example =
    single-shares assign team task cpy_data 1 (2 ∷ 0 ∷ []) arrive copiers 99 before assign-IsCopy
      refl (omega arith) (omega arith) (omega arith)

-- Both threads find no vector; each comes to the mutex.
abbrev new : Cached
new = record { cache = none; next = 100; mem = λ a. 7; pc = λ i. outside }

abbrev both_locking : Cached
both_locking = look 1 (look 0 new)

abbrev both_fetching : Cached
both_fetching = allocate 2 1 (allocate 2 0 both_locking)

abbrev or_new : Option Cached → Cached
or_new none = new
or_new (some s) = s

abbrev one_back : Cached
one_back = or_new (fetch 5 1 both_fetching)

abbrev both_back : Cached
both_back = or_new (fetch 5 0 one_back)

before_Steps : Steps 2 new one_back
unfolding look allocate fetch
before_Steps =
    followed
      (followed
        (followed (followed (followed here (looks 0 refl)) (looks 1 refl)) (allocates 0 refl))
        (allocates 1 refl))
      (fetches 5 1 one_back refl refl)

after_Steps : Steps 2 one_back both_back
unfolding look allocate fetch
after_Steps = followed here (fetches 5 0 both_back refl refl)

threadprivate-same_example : (◌≡◌ {A = ℕ} 100 101) ↔ (◌≡◌ {A = ℕ} 1 0)
unfolding look allocate fetch
threadprivate-same_example =
    threadprivate-same 2 new one_back both_back 1 0 100 101 (refl, λ i. refl) before_Steps
      after_Steps refl refl
