-- ===== src/Atomic/LockFree/Tickets.antt =====
-- Captures of `ATOMIC_FIXED_ADD_CPT` of src/kmp_atomic.cpp with the operand 1, by several threads on
-- one cell: the values that they find.
use mathlib.Core.Option.{some-injective}
use native.Mathlib.Nat.{mod-add-mod, mod-eq_of_lt}
use hpx_mp.Base.{
  ℕ, zero, suc, ◌+◌, ◌%◌, ◌^◌, ◌≤◌, ◌<◌, ◌≡◌, ◌≢◌, refl, sym, ◌∙◌, ap, Bool, true, false, Option,
  none, some, List, [], ◌∷◌, length, arith, dec_lt, Bool-cases, inl, inr, count_below,
  count_below-change, count_below-le, update_ne, ◌==◌, if◌then◌else◌,
}
use hpx_mp.Atomic.Serial.{Commit, lookup, Serial}
use hpx_mp.Atomic.LockFree.{Routine, run, start, update_of, outcome}
use hpx_mp.Atomic.Fixed.{captured}
use hpx_mp.Atomic.LockFree.Linear.{run-Serial}

-- Fewer than `m` apart, two numbers have different remainders.
mod-ne : (x j k m : ℕ) → j < k → k < j + m → (x + j) % m ≢ (x + k) % m
mod-ne x j k m lt small e = grind arith

remainders_differ :
    (x j k most m : ℕ)
    → j < most
    → k < most
    → most ≤ m
    → j ≢ k
    → ((x + j) % m ≢ (x + k) % m) × ((x + suc j) % m ≢ (x + suc k) % m)
remainders_differ x j k most m p q le ne = elim (dec_lt j k) [
  | yes lt ↦
      (mod-ne x j k m lt (omega arith), mod-ne x (suc j) (suc k) m (omega arith) (omega arith))
  | no ge ↦ (
    λ e. mod-ne x k j m (omega (arith, ge, ne)) (omega arith) (sym e),
    λ e. mod-ne x (suc k) (suc j) m (omega (arith, ge, ne)) (omega arith) (sym e),
  )
]

abbrev found : Option (ℕ × ℕ) → Bool
found none = false
found (some r) = true

none_found : (n : ℕ) → count_below (λ g. false) n ≡ 0
none_found zero = refl
none_found (suc n) = omega (arith, none_found n)

-- How many updates came before a thread's.
abbrev place : List Commit → ℕ → ℕ
place [] g = 0
place (c ∷ h) g = if c.thread == g then length h else place h g

module _ (bits x : ℕ) where
  -- After the updates of a list, each an addition of 1.
  record IsNumbered (h : List Commit) (y : ℕ) : Type 0 where
    cell : y ≡ (x + length h) % 2 ^ bits
    early : (g : ℕ) (r : ℕ × ℕ) → lookup h g ≡ some r → place h g < length h
    old : (g : ℕ) (r : ℕ × ℕ) → lookup h g ≡ some r → r.0 ≡ (x + place h g) % 2 ^ bits
    new : (g : ℕ) (r : ℕ × ℕ) → lookup h g ≡ some r → r.1 ≡ (x + suc (place h g)) % 2 ^ bits
    apart :
        (g j : ℕ) (r q : ℕ × ℕ)
        → lookup h g ≡ some r
        → lookup h j ≡ some q
        → g ≢ j
        → place h g ≢ place h j

  commit-IsNumbered :
      (h : List Commit) (y z g : ℕ)
      → lookup h g ≡ none
      → z ≡ (y + 1) % 2 ^ bits
      → IsNumbered h y
      → IsNumbered (record { thread = g; old_value = y; new_value = z } ∷ h) z
  commit-IsNumbered h y z g fresh does w =
      let next : z ≡ (x + suc (length h)) % 2 ^ bits =
        does
        ∙ ap (λ k. (k + 1) % 2 ^ bits) w.cell
        ∙ mod-add-mod (x + length h) (2 ^ bits) 1
        ∙ ap (λ k. k % 2 ^ bits) (omega arith) in
      record {
        cell = next;
        early = λ j r e. ground (arith, w.early j r);
        old = λ j r e. ground (arith, w.old j r, w.cell);
        new = λ j r e. ground (arith, w.new j r, next);
        apart = λ i j r q e f ne. ground (arith, w.apart i j r q, w.early i r, w.early j q);
      }

  Serial-IsNumbered :
      (h : List Commit) (y : ℕ)
      → Serial (λ g. update_of (Routine.test_then_add bits 1)) x h y
      → x < 2 ^ bits
      → IsNumbered h y
  unfolding update_of
  Serial-IsNumbered _ _ Serial.untouched lt = record {
    cell = sym (mod-eq_of_lt lt) ∙ ap (λ k. k % 2 ^ bits) (omega arith);
    early = λ g r e. cc;
    old = λ g r e. cc;
    new = λ g r e. cc;
    apart = λ g j r q e f ne. cc;
  }
  Serial-IsNumbered _ _ (Serial.commit {h} {y} {z} g s fresh does) lt =
      commit-IsNumbered h y z g fresh (sym (some-injective _ _ does)) (Serial-IsNumbered h y s lt)

  -- As many updates as threads that are done.
  Serial-count :
      (h : List Commit) (y n : ℕ)
      → Serial (λ g. update_of (Routine.test_then_add bits 1)) x h y
      → ((j : ℕ) → n ≤ j → lookup h j ≡ none)
      → count_below (λ g. found (lookup h g)) n ≡ length h
  Serial-count _ _ n Serial.untouched above = none_found n
  Serial-count _ _ n (Serial.commit {h} {y} {z} g s fresh does) above =
      let now = lookup (record { thread = g; old_value = y; new_value = z } ∷ h) in
      let below : g < n = elim (dec_lt g n) [
        | yes l ↦ l
        | no nl ↦ absurd (ground (arith, above g (omega (arith, nl))))
      ] in
      let c =
        count_below-change (λ j. found (now j)) (λ j. found (lookup h j)) n g below
          (λ j ne. ap found (update_ne (lookup h) g j (some (y, z)) ne)) in
      let before =
        Serial-count h y n s
          (λ j le. sym (update_ne (lookup h) g j (some (y, z)) (omega arith)) ∙ above j le) in
      ground (arith, c, before, fresh)

-- Where at most as many threads as the cell has values have each added 1, whatever the
-- interleaving, no two threads that are done capture the same value: neither those with the old
-- values nor those with the new ones.
tickets-differ :
    (bits n x : ℕ) (schedule : List ℕ) (flag : Bool) (g j : ℕ) (a b : ℕ × ℕ)
    → n ≤ 2 ^ bits
    → x < 2 ^ bits
    → ((i : ℕ)
        → n ≤ i
        → outcome ((run (λ t. Routine.test_then_add bits 1) schedule (start x)).stage i) ≡ none)
    → outcome ((run (λ t. Routine.test_then_add bits 1) schedule (start x)).stage g) ≡ some a
    → outcome ((run (λ t. Routine.test_then_add bits 1) schedule (start x)).stage j) ≡ some b
    → g ≢ j
    → captured flag a ≢ captured flag b
unfolding captured
tickets-differ bits n x schedule flag g j a b few lt above mine yours ne =
    let (h, serial, recorded) = run-Serial (λ t. Routine.test_then_add bits 1) x schedule in
    let w = Serial-IsNumbered bits x h _ serial lt in
    let all = Serial-count bits x h _ n serial (λ i le. sym (recorded i) ∙ above i le) in
    let p = sym (recorded g) ∙ mine in
    let q = sym (recorded j) ∙ yours in
    let most : length h ≤ 2 ^ bits =
      omega (arith, all, count_below-le (λ i. found (lookup h i)) n) in
    let differ =
      remainders_differ x (place h g) (place h j) (length h) (2 ^ bits) (w.early g a p)
        (w.early j b q) most (w.apart g j a b p q ne) in
    elim (Bool-cases flag) [
      | inl set ↦ rw set (λ e. differ.1 (sym (w.new g a p) ∙ e ∙ w.new j b q))
      | inr unset ↦ rw unset (λ e. differ.0 (sym (w.old g a p) ∙ e ∙ w.old j b q))
    ]
