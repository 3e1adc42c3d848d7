-- ===== src/Atomic/Critical/Words/Examples.antt =====
-- A thread that reads among threads that add to both words of a cell.
use hpx_mp.Base.{ℕ, zero, suc, ◌+◌, ◌^◌, ◌≡◌, ◌≢◌, refl, ◌⊎◌, some, none, List, [], ◌∷◌}
use hpx_mp.Atomic.Serial.{Commit, lookup, Serial}
use hpx_mp.Atomic.Critical.Words.{
  Access, WordStage, SharedWords, step_words, with_value, step, run_words, start, outcome, words,
}
use hpx_mp.Atomic.Critical.Words.Holds.{effect}
use hpx_mp.Atomic.Critical.Words.Linear.{run_words-Serial}

-- Thread 0 reads; the others add 1 to each word.
abbrev accesses : ℕ → Access
accesses zero = Access.read
accesses (suc g) = Access.change (λ v. some (v + 2 ^ 64 + 1))

-- The reader tries while thread 1 has written one word.
abbrev reads_between : List ℕ
reads_between = 1 ∷ 1 ∷ 1 ∷ 1 ∷ 0 ∷ 1 ∷ 1 ∷ 0 ∷ 0 ∷ 0 ∷ 0 ∷ []

abbrev all_done : SharedWords
all_done = run_words accesses reads_between (start 5)

all_done_stage : all_done.stage 0 ≡ WordStage.released (2 ^ 64 + 6) (2 ^ 64 + 6)
unfolding run_words step start step_words with_value
all_done_stage = refl

run_words-Serial_example :
    (y : ℕ) × (h : List Commit) × Serial (λ g. effect (accesses g)) 5 h y
    × ((g : ℕ) → outcome (all_done.stage g) ≡ lookup h g)
    × ((all_done.lock ≢ none) ⊎ (all_done.cell ≡ words y))
run_words-Serial_example = run_words-Serial accesses 5 reads_between
