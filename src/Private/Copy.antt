-- ===== src/Private/Copy.antt =====
-- `__kmpc_copyprivate` of src/intel_hpxMP.cpp, between its barriers: the thread that ran the
-- `single` region shows where its data is, then every thread copies from there. The compiler's
-- `cpy_func` is a parameter.
use hpx_mp.Base.{
  ℕ, ◌<◌, ◌≡◌, ◌≢◌, ◌⊎◌, inl, inr, refl, ◌∙◌, Bool, List, [], ◌∷◌, arith, ◌==◌, if◌then◌else◌, All,
  ℕ_discrete, subst,
}
use hpx_mp.Team.Single.{times}

module _ {V : Type 0} (cpy_func : ℕ → ℕ → (ℕ → V) → ℕ → V) where
  -- Each thread's `cpy_data` and `didit`.
  pub record Arguments : Type 0 where
    pub cpy_data : ℕ → ℕ
    pub didit : ℕ → Bool

  -- `*data_ptr = cpy_data`, up to the first barrier.
  unfoldable pub publish : Arguments → ℕ → ℕ → ℕ
  publish args g copyprivate_data = if args.didit g then args.cpy_data g else copyprivate_data

  -- `cpy_func(cpy_data, *data_ptr)`, up to the second barrier.
  unfoldable pub copy : Arguments → ℕ → ℕ → (ℕ → V) → ℕ → V
  copy args copyprivate_data g mem = cpy_func (args.cpy_data g) copyprivate_data mem

  -- Threads that do so one after the other.
  unfoldable pub publish_all : Arguments → List ℕ → ℕ → ℕ
  publish_all args [] copyprivate_data = copyprivate_data
  publish_all args (g ∷ gs) copyprivate_data = publish_all args gs (publish args g copyprivate_data)

  unfoldable pub copy_all : Arguments → ℕ → List ℕ → (ℕ → V) → ℕ → V
  copy_all args copyprivate_data [] mem = mem
  copy_all args copyprivate_data (g ∷ gs) mem =
      copy_all args copyprivate_data gs (copy args copyprivate_data g mem)

  -- The team between two barriers: the order of the threads is its own in each part.
  unfoldable pub kmpc_copyprivate : Arguments → List ℕ → List ℕ → ℕ → (ℕ → V) → ℕ → V
  kmpc_copyprivate args arrive copiers copyprivate_data mem =
      copy_all args (publish_all args arrive copyprivate_data) copiers mem

  -- What the compiler's function does: it copies one cell to another, and changes no third.
  pub record IsCopy : Type 0 where
    pub copies : (d s : ℕ) (mem : ℕ → V) → cpy_func d s mem d ≡ mem s
    pub leaves : (d s a : ℕ) (mem : ℕ → V) → d ≢ a → cpy_func d s mem a ≡ mem a

  -- `g` ran the region, alone.
  abbrev pub RanBy : Arguments → ℕ → Type 0
  RanBy args g = (j : ℕ) → args.didit j ≡ (g == j)

  -- Nobody but `g` shows anything.
  published :
      (args : Arguments) (g : ℕ) (gs : List ℕ) (shown : ℕ)
      → RanBy args g
      → publish_all args gs shown ≡ (if 0 == times g gs then shown else args.cpy_data g)
  unfolding publish_all publish
  published args g [] shown ran = refl
  published args g (j ∷ gs) shown ran =
      ground (arith, ran j, published args g gs (publish args j shown) ran)

  copied : (d s a : ℕ) (mem : ℕ → V) → IsCopy → d ≡ a → cpy_func d s mem a ≡ mem s
  copied d s a mem c e = subst (λ k. cpy_func d s mem k ≡ mem s) e (c.copies d s mem)

  source_kept : (d s : ℕ) (mem : ℕ → V) → IsCopy → cpy_func d s mem s ≡ mem s
  source_kept d s mem c = elim (ℕ_discrete d s) [
    | yes e ↦ copied d s s mem c e
    | no ne ↦ c.leaves d s s mem ne
  ]

  -- Copies from `s` give no cell another value, and `s` keeps its own.
  copy_kept :
      (args : Arguments) (s a : ℕ) (gs : List ℕ) (mem : ℕ → V)
      → IsCopy
      → (copy_all args s gs mem s ≡ mem s)
        × ((copy_all args s gs mem a ≡ mem a) ⊎ (copy_all args s gs mem a ≡ mem s))
  unfolding copy_all copy
  copy_kept args s a [] mem c = (refl, inl refl)
  copy_kept args s a (g ∷ gs) mem c =
      let now = copy args s g mem in
      let (kept, from) = copy_kept args s a gs now c in
      let same : now s ≡ mem s = source_kept (args.cpy_data g) s mem c in
      (
        kept ∙ same,
        elim (ℕ_discrete (args.cpy_data g) a) [
          | yes e ↦ inr (ground (arith, from, same, copied (args.cpy_data g) s a mem c e))
          | no ne ↦ ground (arith, from, same, c.leaves (args.cpy_data g) s a mem ne)
        ],
      )

  copy_each :
      (args : Arguments) (s : ℕ) (gs : List ℕ) (mem : ℕ → V)
      → IsCopy
      → All (λ g. copy_all args s gs mem (args.cpy_data g) ≡ mem s) gs
  unfolding copy_all copy
  copy_each args s [] mem c = tt
  copy_each args s (g ∷ gs) mem c =
      let now = copy args s g mem in
      let same : now s ≡ mem s = source_kept (args.cpy_data g) s mem c in
      let (kept, from) = copy_kept args s (args.cpy_data g) gs now c in
      (
        ground (arith, from, same, c.copies (args.cpy_data g) s mem),
        subst (λ (v : V). All (λ j. copy_all args s gs now (args.cpy_data j) ≡ v) gs) same
            (copy_each args s gs now c),
      )

  -- If `cpy_func` copies (`IsCopy`), and of the threads that come to the first barrier `g` alone
  -- ran the region: whatever the orders of the threads before and after that barrier and whatever
  -- was shown before, every thread that copies ends with the value that `g` had; every other cell
  -- keeps its value or has that one.
  pub kmpc_copyprivate-shares :
      (args : Arguments) (g : ℕ) (arrive copiers : List ℕ) (shown : ℕ) (mem : ℕ → V)
      → IsCopy
      → RanBy args g
      → 0 < times g arrive
      → All
          (λ j.
            kmpc_copyprivate args arrive copiers shown mem (args.cpy_data j)
            ≡ mem (args.cpy_data g))
          copiers
        × ((a : ℕ)
            → (kmpc_copyprivate args arrive copiers shown mem a ≡ mem a)
              ⊎ (kmpc_copyprivate args arrive copiers shown mem a ≡ mem (args.cpy_data g)))
  unfolding kmpc_copyprivate
  kmpc_copyprivate-shares args g arrive copiers shown mem c ran came =
      let from : publish_all args arrive shown ≡ args.cpy_data g =
        published args g arrive shown ran ∙ ground (arith, came) in
      rw from (
        copy_each args (args.cpy_data g) copiers mem c,
        λ a. (copy_kept args (args.cpy_data g) a copiers mem c).1,
      )
