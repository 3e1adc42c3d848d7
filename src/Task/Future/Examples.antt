-- ===== src/Task/Future/Examples.antt =====
-- Concrete tasks and blocks for the theorems on tasks that depend on futures.
use hpx_mp.Base.{
  ℕ, zero, suc, ◌+◌, ◌≤◌, ◌<◌, ◌≡◌, ◌≢◌, ◌⊎◌, refl, Option, none, some, List, [], ◌∷◌, arith,
  get_elem?, update, update_ne, true, false, ◌>>=◌,
}
use hpx_mp.Task.Future.{Heap, RawData, KmpTask, FutureDep, memcpy, inputs2, inputs3, copy_out}
use hpx_mp.Task.Future.Inputs.{Layout3, inputs3-copied}
use hpx_mp.Task.Future.Result.{RunsWell, copied_in}

-- Block 0 is the task's; 1 to 3 are those of the arguments.
abbrev blocks : Heap
blocks zero = some (0 ∷ 0 ∷ 0 ∷ 0 ∷ [])
blocks (suc zero) = some (7 ∷ [])
blocks (suc (suc zero)) = some (8 ∷ 9 ∷ [])
blocks (suc (suc (suc zero))) = some (6 ∷ [])
blocks (suc (suc (suc (suc n)))) = none

-- The task adds 1 to the first byte of its block.
abbrev next_byte : Option (List ℕ) → Option (List ℕ)
next_byte none = none
next_byte (some []) = some []
next_byte (some (b ∷ bs)) = some ((b + 1) ∷ bs)

abbrev adds_one : KmpTask
adds_one = record { block = 0; routine = λ h. some (update h 0 (next_byte (h 0))) }

abbrev of_size : ℕ → ℕ → RawData
of_size block size = record { block = block; size = size }

uneven :
    Layout3 adds_one
      (of_size 1 1)
      (of_size 2 2)
      (of_size 3 1)
      (7 ∷ [])
      (8 ∷ 9 ∷ [])
      (6 ∷ [])
      (0 ∷ 0 ∷ 0 ∷ 0 ∷ [])
      blocks
uneven = record {
  own = refl;
  whole = refl;
  first = refl;
  second = refl;
  third = refl;
  apart = (omega arith, omega arith, omega arith);
  sizes = (refl, refl, refl);
}

-- The second byte of the second argument is lost.
uneven_input :
    (inputs3 adds_one (of_size 1 1) (of_size 2 2) (of_size 3 1) blocks >>= λ h. h 0)
    ≡ some (7 ∷ 8 ∷ 6 ∷ 0 ∷ [])
unfolding inputs3 memcpy
uneven_input = refl

inputs3-copied_example :
    (◌<◌ 2 1 × (inputs3 adds_one (of_size 1 1) (of_size 2 2) (of_size 3 1) blocks ≡ none))
    ⊎ (◌≤◌ 1 2
        × ((h' : Heap) × (bytes : List ℕ) × (inputs3 adds_one
                (of_size 1 1)
                (of_size 2 2)
                (of_size 3 1)
                blocks
              ≡ some h')
            × (h' 0 ≡ some bytes)
            × ((◌≢◌ {A = ℕ} 2 1) ⊎ (bytes ≡ 7 ∷ 8 ∷ 9 ∷ 6 ∷ []))
            × (get_elem? bytes 2 ≡ some 6)))
inputs3-copied_example = inputs3-copied uneven 0 (omega arith)

abbrev variable : ℕ → RawData
variable v = of_size 1 1

abbrev reads_writes : FutureDep
reads_writes = record { base_addr = 64; out = true }

abbrev reads : FutureDep
reads = record { base_addr = 65; out = false }

abbrev two_given : Heap
two_given = update (update blocks 0 (some (7 ∷ 0 ∷ 0 ∷ 0 ∷ []))) 0 (some (7 ∷ 7 ∷ 0 ∷ 0 ∷ []))

abbrev two_after : Heap
two_after = update two_given 0 (some (8 ∷ 7 ∷ 0 ∷ 0 ∷ []))

abbrev two_back : Heap
two_back = update two_after 1 (some (8 ∷ []))

two_copied : copied_in adds_one variable (reads_writes ∷ reads ∷ []) blocks ≡ some two_given
unfolding inputs2 memcpy
two_copied = refl

two_fit : copy_out adds_one (of_size 1 1) two_after ≡ some (of_size 1 1, two_back)
unfolding copy_out memcpy
two_fit = refl

abbrev two_run : RunsWell adds_one variable reads_writes (reads ∷ []) blocks
two_run = record {
  output = 64;
  has_output = refl;
  given = two_given;
  copied = two_copied;
  after = two_after;
  runs = refl;
  apart = λ b ne. update_ne two_given 0 b (some (8 ∷ 7 ∷ 0 ∷ 0 ∷ [])) ne;
  copied_back = two_back;
  fits = two_fit;
}
