-- ===== src/Atomic/Fixed/Maximum.antt =====
-- The atomic maximum of src/kmp_atomic.cpp: what the cell holds at the end.
use mathlib.Core.Option.{some-injective}
use hpx_mp.Base.{
  ℕ, ◌≡◌, ◌≢◌, refl, sym, ◌∙◌, ◌⊎◌, inl, inr, ap, subst, some, none, List, arith, if◌then◌else◌,
  Bool-cases, true, false, update-all,
}
use hpx_mp.Base.Int.{ℤ, ◌≤ℤ◌, ltb_ℤ}
use hpx_mp.Atomic.Serial.{Commit, lookup, Serial}
use hpx_mp.Atomic.LockFree.{run, start, update_of, outcome}
use hpx_mp.Atomic.LockFree.Linear.{run-Serial}
use hpx_mp.Atomic.Fixed.{Kind, value, atomic_max}

larger : (a b : ℤ) → ltb_ℤ a b ≡ true → a ≤ℤ b
larger a b h = ground arith

not_smaller : (a b : ℤ) → ltb_ℤ a b ≡ false → b ≤ℤ a
not_smaller a b h = ground arith

≤ℤ-trans : (a b c : ℤ) → a ≤ℤ b → b ≤ℤ c → a ≤ℤ c
≤ℤ-trans a b c p q = omega arith

≤ℤ-refl : (a : ℤ) → a ≤ℤ a
≤ℤ-refl a = omega arith

module _ (k : Kind) (v : ℕ → ℕ) (x : ℕ) where
  -- No update lowers the cell, and each leaves its operand or the value it found.
  one_max :
      (g y z : ℕ)
      → update_of (atomic_max k (v g)) y ≡ some z
      → (value k y ≤ℤ value k z) × (value k (v g) ≤ℤ value k z) × ((z ≡ y) ⊎ (z ≡ v g))
  unfolding atomic_max update_of
  one_max g y z e = elim (Bool-cases (ltb_ℤ (value k y) (value k (v g)))) [
    | inl more ↦
        let new : v g ≡ z = sym (ap (λ t. if t then v g else y) more) ∙ some-injective _ _ e in
        (
          subst (λ t. value k y ≤ℤ value k t) new (larger (value k y) (value k (v g)) more),
          subst (λ t. value k (v g) ≤ℤ value k t) new (≤ℤ-refl (value k (v g))),
          inr (sym new),
        )
    | inr over ↦
        let old : y ≡ z = sym (ap (λ t. if t then v g else y) over) ∙ some-injective _ _ e in
        (
          subst (λ t. value k y ≤ℤ value k t) old (≤ℤ-refl (value k y)),
          subst (λ t. value k (v g) ≤ℤ value k t) old
              (not_smaller (value k y) (value k (v g)) over),
          inl (sym old),
        )
  ]

  -- What holds of the cell after the updates of a list.
  record IsMaximum (h : List Commit) (y : ℕ) : Type 0 where
    above_start : value k x ≤ℤ value k y
    above_done : (g : ℕ) → lookup h g ≢ none → value k (v g) ≤ℤ value k y
    origin : (y ≡ x) ⊎ ((g : ℕ) × (y ≡ v g))

  next_origin :
      (g y z : ℕ)
      → (z ≡ y) ⊎ (z ≡ v g)
      → (y ≡ x) ⊎ ((j : ℕ) × (y ≡ v j))
      → (z ≡ x) ⊎ ((j : ℕ) × (z ≡ v j))
  next_origin g y z (inl same) (inl e) = inl (same ∙ e)
  next_origin g y z (inl same) (inr (j, e)) = inr (j, same ∙ e)
  next_origin g y z (inr mine) o = inr (g, mine)

  Serial-IsMaximum :
      (h : List Commit) (y : ℕ) → Serial (λ g. update_of (atomic_max k (v g))) x h y → IsMaximum h y
  Serial-IsMaximum _ _ Serial.untouched = record {
    above_start = ≤ℤ-refl (value k x);
    above_done = λ g ne. absurd (ne refl);
    origin = inl refl;
  }
  Serial-IsMaximum _ _ (Serial.commit {h} {y} {z} g s fresh does) =
      let before = Serial-IsMaximum h y s in
      let (grows, covers, from) = one_max g y z does in
      record {
        above_start = ≤ℤ-trans (value k x) (value k y) (value k z) before.above_start grows;
        above_done =
            update-all (λ j o. o ≢ none → value k (v j) ≤ℤ value k z) (lookup h) g (some (y, z))
              (λ ne. covers)
              (λ j ne found.
                ≤ℤ-trans (value k (v j)) (value k y) (value k z) (before.above_done j found) grows);
        origin = next_origin g y z from before.origin;
      }

  -- After any interleaving of atomic maxima on a cell, it is at least its first value and at least
  -- the operand of every thread that is done, and it is its first value or the operand of a thread.
  atomic_max-greatest :
      (schedule : List ℕ)
      → (value k x ≤ℤ value k (run (λ g. atomic_max k (v g)) schedule (start x)).cell)
        × ((g : ℕ)
            → outcome ((run (λ j. atomic_max k (v j)) schedule (start x)).stage g) ≢ none
            → value k (v g) ≤ℤ value k (run (λ j. atomic_max k (v j)) schedule (start x)).cell)
        × (((run (λ g. atomic_max k (v g)) schedule (start x)).cell ≡ x)
            ⊎ ((g : ℕ) × ((run (λ j. atomic_max k (v j)) schedule (start x)).cell ≡ v g)))
  atomic_max-greatest schedule =
      let (h, serial, recorded) = run-Serial (λ g. atomic_max k (v g)) x schedule in
      let m = Serial-IsMaximum h _ serial in
      (m.above_start, λ g ne. m.above_done g (λ e. ne (recorded g ∙ e)), m.origin)
