-- ===== src/Atomic/LockFree/Sum.antt =====
-- `ATOMIC_FIXED_ADD` of src/kmp_atomic.cpp by several threads on one cell.
use mathlib.Core.Option.{some-injective}
use native.Mathlib.Nat.{mod-add-mod, mod-eq_of_lt}
use hpx_mp.Base.{
  ℕ, zero, suc, ◌+◌, ◌%◌, ◌^◌, ◌≤◌, ◌<◌, ◌≡◌, ◌≢◌, refl, sym, ◌∙◌, ◌↔◌, ap, Option, none, some,
  List, [], arith, ℕ_discrete, dec_lt, Option-cases, inl, inr, update, update_self, update_ne,
  subst,
}
use hpx_mp.Atomic.Serial.{Commit, lookup, Serial}
use hpx_mp.Atomic.LockFree.{Routine, run, start, update_of, outcome}
use hpx_mp.Atomic.LockFree.Linear.{run-Serial}

-- The addends of the threads below a number, and of those among them that are done.
abbrev pub sum : (ℕ → ℕ) → ℕ → ℕ
sum v zero = 0
sum v (suc n) = sum v n + v n

abbrev counted : Option (ℕ × ℕ) → ℕ → ℕ
counted none a = 0
counted (some r) a = a

abbrev sum_done : (ℕ → ℕ) → (ℕ → Option (ℕ × ℕ)) → ℕ → ℕ
sum_done v found zero = 0
sum_done v found (suc n) = sum_done v found n + counted (found n) (v n)

sum_done_out :
    (v : ℕ → ℕ) (h : List Commit) (g : ℕ) (r : ℕ × ℕ) (n : ℕ)
    → n ≤ g
    → sum_done v (update (lookup h) g (some r)) n ≡ sum_done v (lookup h) n
sum_done_out v h g r zero le = refl
sum_done_out v h g r (suc n) le =
    rw (sum_done_out v h g r n (omega arith))
      (rw (update_ne (lookup h) g n (some r) (omega arith)) refl)

sum_done_in :
    (v : ℕ → ℕ) (h : List Commit) (g : ℕ) (r : ℕ × ℕ) (n : ℕ)
    → g < n
    → lookup h g ≡ none
    → sum_done v (update (lookup h) g (some r)) n ≡ sum_done v (lookup h) n + v g
sum_done_in v h g r zero lt e = omega arith
sum_done_in v h g r (suc n) lt e = elim (ℕ_discrete g n) [
  | yes here ↦
      let now : update (lookup h) g (some r) n ≡ some r =
        subst (λ k. update (lookup h) g (some r) k ≡ some r) here
          (update_self (lookup h) g (some r)) in
      let before : lookup h n ≡ none = subst (λ k. lookup h k ≡ none) here e in
      rw (sum_done_out v h g r n (omega (arith, here)))
        (rw (now, before) (omega (arith, ap v here)))
  | no ne ↦
      rw (sum_done_in v h g r n (omega arith) e)
        (rw (update_ne (lookup h) g n (some r) ne) (omega arith))
]

sum_done_none : (v : ℕ → ℕ) (n : ℕ) → sum_done v (lookup []) n ≡ 0
sum_done_none v zero = refl
sum_done_none v (suc n) = omega (arith, sum_done_none v n)

sum_done_all :
    (v : ℕ → ℕ) (h : List Commit) (n : ℕ)
    → ((g : ℕ) → g < n → lookup h g ≢ none)
    → sum_done v (lookup h) n ≡ sum v n
sum_done_all v h zero all = refl
sum_done_all v h (suc n) all = elim (Option-cases (lookup h n)) [
  | inl e ↦ absurd (all n (omega arith) e)
  | inr (r, e) ↦ rw (sum_done_all v h n (λ g lt. all g (omega arith))) (rw e refl)
]

-- The cell holds the addends of those done.
Serial-sum_done :
    (v : ℕ → ℕ) (bits n x : ℕ) (h : List Commit) (y : ℕ)
    → Serial (λ g. update_of (Routine.test_then_add bits (v g))) x h y
    → x < 2 ^ bits
    → ((g : ℕ) → n ≤ g → lookup h g ≡ none)
    → y ≡ (x + sum_done v (lookup h) n) % 2 ^ bits
unfolding update_of
Serial-sum_done v bits n x _ _ Serial.untouched lt none_above =
    sym (mod-eq_of_lt lt) ∙ ap (λ k. k % 2 ^ bits) (omega (arith, sum_done_none v n))
Serial-sum_done v bits n x _ _ (Serial.commit {h} {y} {z} g s fresh does) lt none_above =
    let below : g < n = elim (dec_lt g n) [
      | yes l ↦ l
      | no nl ↦
          absurd (absent (update_self (lookup h) g (some (y, z))) (none_above g (omega arith)))
    ] in
    let total = sum_done v (lookup h) n in
    let m = 2 ^ bits in
    let ih : y ≡ (x + total) % m =
      Serial-sum_done v bits n x h y s lt
        (λ j le. sym (update_ne (lookup h) g j (some (y, z)) (omega arith)) ∙ none_above j le) in
    let more : x + total + v g ≡ x + sum_done v (update (lookup h) g (some (y, z))) n =
      omega (arith, sum_done_in v h g (y, z) n below fresh) in
    sym (some-injective _ _ does)
    ∙ ap (λ k. (k + v g) % m) ih
    ∙ mod-add-mod (x + total) m (v g)
    ∙ ap (λ k. k % m) more
  where
    absent : {o : Option (ℕ × ℕ)} {r : ℕ × ℕ} → o ≡ some r → o ≡ none → ⊥
    absent e e' = cc

-- Where the cell's first value is one of the width, the threads below `n` are done with an addition
-- each and no other is, the cell holds the sum of its first value and all their addends, modulo the
-- width: no addition is lost, whatever the interleaving.
test_then_add-sum :
    (v : ℕ → ℕ) (bits n x : ℕ) (schedule : List ℕ)
    → x < 2 ^ bits
    → ((g : ℕ)
        → (outcome ((run (λ j. Routine.test_then_add bits (v j)) schedule (start x)).stage g)
            ≡ none)
          ↔ (n ≤ g))
    → (run (λ j. Routine.test_then_add bits (v j)) schedule (start x)).cell
      ≡ (x + sum v n) % 2 ^ bits
test_then_add-sum v bits n x schedule lt done_below =
    let (h, serial, recorded) = run-Serial (λ j. Routine.test_then_add bits (v j)) x schedule in
    Serial-sum_done v bits n x h _ serial lt (λ g le. sym (recorded g) ∙ (done_below g).1 le)
    ∙ ap (λ k. (x + k) % 2 ^ bits)
        (sum_done_all v h n (λ g below e. omega (arith, (done_below g).0 (recorded g ∙ e))))
