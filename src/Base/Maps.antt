-- ===== src/Base/Maps.antt =====
-- Memory and per-thread state as functions from an address or an index.
use Prim.Native.Nat.{ℕ}
use mathlib.Core.Path.{◌≡◌, sym, subst, fun_ext}
use mathlib.Core.Logic.{◌≢◌}
use native.Mathlib.Omega.{arith}
use native.Mathlib.Decide.{ℕ_discrete}
use hpx_mp.Base.Tests.{◌==◌, if◌then◌else◌}

-- One entry is given anew.
abbrev pub update {ℓ} : {A : Type ℓ} → (ℕ → A) → ℕ → A → ℕ → A
update f i a j = if i == j then a else f j

module _ {ℓ} {A : Type ℓ} where
  pub update_self : (f : ℕ → A) (i : ℕ) (a : A) → update f i a i ≡ a
  update_self f i a = ground arith

  pub update_ne : (f : ℕ → A) (i j : ℕ) (a : A) → i ≢ j → update f i a j ≡ f j
  update_ne f i j a h = ground arith

  pub update_same : (f : ℕ → A) (i : ℕ) (a : A) → f i ≡ a → update f i a ≡ f
  update_same f i a h = fun_ext (λ j. ground (arith, h))

  -- What holds of the new entry and of the others holds of all.
  pub update-all {κ} :
      (P : ℕ → A → Type κ) (f : ℕ → A) (i : ℕ) (a : A)
      → P i a
      → ((j : ℕ) → i ≢ j → P j (f j))
      → (j : ℕ) → P j (update f i a j)
  update-all P f i a p q j = elim (ℕ_discrete i j) [
    | yes e ↦ subst (λ k. P k (update f i a k)) e (subst (P i) (sym (update_self f i a)) p)
    | no ne ↦ subst (P j) (sym (update_ne f i j a ne)) (q j ne)
  ]

-- Of two functions that are given anew at one place.
pub update-all_two {ℓ κ μ} :
    {A : Type ℓ} {B : Type κ} (P : ℕ → A → B → Type μ) (f : ℕ → A) (g : ℕ → B) (i : ℕ) (a : A)
    (b : B)
    → P i a b
    → ((j : ℕ) → i ≢ j → P j (f j) (g j))
    → (j : ℕ) → P j (update f i a j) (update g i b j)
update-all_two P f g i a b p q j = elim (ℕ_discrete i j) [
  | yes e ↦
      subst (λ k. P k (update f i a k) (update g i b k)) e
        (subst (λ y. P i (update f i a i) y) (sym (update_self g i b))
          (subst (λ x. P i x b) (sym (update_self f i a)) p))
  | no ne ↦
      subst (λ y. P j (update f i a j) y) (sym (update_ne g i j b ne))
        (subst (λ x. P j x (g j)) (sym (update_ne f i j a ne)) (q j ne))
]
