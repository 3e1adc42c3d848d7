-- ===== src/Start/Argv.antt =====
-- The array of arguments that `start_hpx` of src/hpx_runtime.cpp passes to `hpx::start`.
use hpx_mp.Base.{
  ℕ, suc, ◌+◌, ◌≡◌, refl, ◌∙◌, ap, Bool, true, false, Option, none, some, List, [], ◌∷◌, map,
  length, set, replicate, arith,
}
use hpx_mp.Start.Number.{codes}
use hpx_mp.Start.{num_hard_coded_args, copy_args, make_argv}

-- Copying starts behind the entries that are there already.
copy_args-suc :
    (i : ℕ) (a : Option (List ℕ)) (args : List (List ℕ)) (argv : List (Option (List ℕ)))
    → copy_args (suc i) args (a ∷ argv) ≡ a ∷ copy_args i args argv
unfolding copy_args
copy_args-suc i a [] argv = refl
copy_args-suc i a (b ∷ args) argv = copy_args-suc (suc i) a args (set argv i (some b))

copy_args-all :
    (args : List (List ℕ))
    → copy_args 0 args (replicate (length args) none) ≡ map (λ a. some a) args
unfolding copy_args
copy_args-all [] = refl
copy_args-all (a ∷ args) =
    copy_args-suc 0 (some a) args (replicate (length args) none)
    ∙ ap (◌∷◌ (some a)) (copy_args-all args)

-- The array before its first entries are set.
copied_one :
    (args : List (List ℕ))
    → copy_args 1 args (replicate (length args + 1) none) ≡ none ∷ map (λ a. some a) args
copied_one args =
    ap (λ n. copy_args 1 args (replicate n none)) (more (length args))
    ∙ copy_args-suc 0 none args (replicate (length args) none)
    ∙ ap (◌∷◌ none) (copy_args-all args)
  where
    more : (n : ℕ) → n + 1 ≡ suc n
    more n = omega arith

copied_two :
    (args : List (List ℕ))
    → copy_args 2 args (replicate (length args + 2) none) ≡ none ∷ none ∷ map (λ a. some a) args
copied_two args =
    ap (λ n. copy_args 2 args (replicate n none)) (more (length args))
    ∙ copy_args-suc 1 none args (none ∷ replicate (length args) none)
    ∙ ap (◌∷◌ none) (
        copy_args-suc 0 none args (replicate (length args) none)
        ∙ ap (◌∷◌ none) (copy_args-all args))
  where
    more : (n : ℕ) → n + 2 ≡ suc (suc n)
    more n = omega arith

-- Before the arguments of the environment there is the name of the program, and with OMP_COMPLIANT
-- one argument more.
abbrev pub expected_argv : Bool → List (List ℕ) → List (Option (List ℕ))
expected_argv compliant args = some (codes "hpxMP") ∷ elim compliant [
  | true ↦ some (codes "--hpx:queuing=static") ∷ map (λ a. some a) args
  | false ↦ map (λ a. some a) args
]

pub make_argv-expected :
    (compliant : Bool) (args : List (List ℕ))
    → make_argv compliant args ≡ expected_argv compliant args
unfolding make_argv num_hard_coded_args
make_argv-expected true args =
    ap (λ v. set (set v 0 (some (codes "hpxMP"))) 1 (some (codes "--hpx:queuing=static")))
      (copied_two args)
make_argv-expected false args = ap (λ v. set v 0 (some (codes "hpxMP"))) (copied_one args)
