-- ===== src/Base/Count.antt =====
-- How many numbers below a bound pass a test.
use Prim.Native.Nat.{ℕ, zero, suc, ◌+◌, ◌≤◌, ◌<◌}
use mathlib.Core.Path.{◌≡◌, refl}
use mathlib.Core.Logic.{◌≢◌}
use mathlib.Core.Bool.{Bool, true}
use native.Mathlib.Omega.{arith}
use native.Mathlib.Decide.{ℕ_discrete}
use hpx_mp.Base.Tests.{if◌then◌else◌}

abbrev pub one_if : Bool → ℕ
one_if b = if b then 1 else 0

abbrev pub count_below : (ℕ → Bool) → ℕ → ℕ
count_below f zero = 0
count_below f (suc n) = one_if (f n) + count_below f n

pub count_below-same :
    (f g : ℕ → Bool) (n : ℕ) → ((j : ℕ) → j < n → f j ≡ g j) → count_below f n ≡ count_below g n
count_below-same f g zero same = refl
count_below-same f g (suc n) same =
    rw (same n (omega arith)) (omega (arith, count_below-same f g n (λ j h. same j (omega arith))))

-- One number's test changes.
pub count_below-change :
    (f g : ℕ → Bool) (n i : ℕ)
    → i < n
    → ((j : ℕ) → i ≢ j → f j ≡ g j)
    → count_below f n + one_if (g i) ≡ count_below g n + one_if (f i)
count_below-change f g zero i h same = elim h [ ]
count_below-change f g (suc n) i h same = elim (ℕ_discrete i n) [
  | yes e ↦ rw e (omega (arith, count_below-same f g n (λ j lt. same j (λ k. omega arith))))
  | no ne ↦ rw (same n ne) (omega (arith, count_below-change f g n i (omega (arith, ne)) same))
]

pub count_below-pos : (f : ℕ → Bool) (n i : ℕ) → i < n → f i ≡ true → 0 < count_below f n
count_below-pos f zero i h e = elim h [ ]
count_below-pos f (suc n) i h e = elim (ℕ_discrete i n) [
  | yes p ↦ ground (arith, p, e)
  | no ne ↦ omega (arith, count_below-pos f n i (omega (arith, ne)) e)
]

pub count_below-all : (f : ℕ → Bool) (n : ℕ) → ((j : ℕ) → f j ≡ true) → count_below f n ≡ n
count_below-all f zero h = refl
count_below-all f (suc n) h = rw (h n) (omega (arith, count_below-all f n h))

pub count_below-le : (f : ℕ → Bool) (n : ℕ) → count_below f n ≤ n
count_below-le f zero = omega arith
count_below-le f (suc n) = ground (arith, count_below-le f n)
