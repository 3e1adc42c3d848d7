-- ===== src/Loop/StaticInit/Owner.antt =====
-- Which thread runs which iterations of an ascending loop of `int`s that `omp_static_init` shares out.

use hpx_mp.Base.{ℕ, ◌+◌, ◌*◌, ◌/◌, ◌%◌, ◌≤◌, ◌<◌, ◌≡◌, sym, ◌∙◌, ap, subst, ◌↔◌}
use hpx_mp.Base.Int.{ℤ, pos, ◌+ℤ◌}
use hpx_mp.Base.Int32.{+ℤ_cancel-pos}
use hpx_mp.Loop.StaticInit.Exact.{Fits, rounds}
use hpx_mp.Loop.StaticInit.Partition.{RunBy, run_index, quotient, static_block-covers, cancel_eq}
use hpx_mp.Loop.StaticInit.Chunks.{FitsChunks}
use hpx_mp.Loop.StaticInit.ChunkPartition.{
  ChunkRunBy, chunk_index, chunk_of, index, static_chunks-covers,
}

-- `v` is the iteration at an index of the loop from `l` up by `span` that falls to thread `h`.
abbrev pub FallsTo : (ℕ → ℕ) → ℤ → ℕ → ℕ → ℕ → ℤ → Type 0
FallsTo owner l span i h v = (m : ℕ) × (m * i ≤ span) × (v ≡ l +ℤ pos (m * i)) × (owner m ≡ h)

abbrev pub block_owner : ℕ → ℕ → ℕ → ℕ → ℕ
block_owner span i team m = m / (rounds span i team + 1)

abbrev pub chunk_owner : ℕ → ℕ → ℕ → ℕ
chunk_owner c team m = m / c % team

-- Where the loop ascends and fits an `int` with one more round of the team (`Fits`): each iteration
-- falls to a thread of the team, whose number is that of the iteration divided by the size of a
-- block, and a thread of the team runs in its block exactly the iterations that fall to it.
pub static_block-owner :
    {l : ℤ} {span i team : ℕ} (chunk : ℤ) (f : Fits l span i team) (m h : ℕ) (v : ℤ)
    → m * i ≤ span
    → h < team
    → (block_owner span i team m < team)
      × (RunBy l span i team chunk h v ↔ FallsTo (block_owner span i team) l span i h v)
static_block-owner {l} {span} {i} {team} chunk f m h v le lt = (
  (owned m le).0,
  (
    λ run.
        let (k, small, inside, at) = run_index chunk f lt run in
        (h * (rounds span i team + 1) + k, inside, at, quotient chunk f h k small),
    λ (m', le', at, same).
        subst (λ w. RunBy l span i team chunk h w) (sym at)
          (subst (λ g. RunBy l span i team chunk g (l +ℤ pos (m' * i))) same (owned m' le').1),
  ),
)
  where
    owned :
        (n : ℕ)
        → n * i ≤ span
        → (block_owner span i team n < team)
          × RunBy l span i team chunk (block_owner span i team n) (l +ℤ pos (n * i))
    owned n le =
        let (g, gt, run) = static_block-covers chunk f n le in
        let (k, small, inside, at) = run_index chunk f gt run in
        let same : n ≡ g * (rounds span i team + 1) + k =
          cancel_eq _ _ i f.step (+ℤ_cancel-pos l _ _ at) in
        let owns : g ≡ block_owner span i team n =
          sym (quotient chunk f g k small) ∙ ap (block_owner span i team) (sym same) in
        (
          subst (λ j. j < team) owns gt,
          subst (λ j. RunBy l span i team chunk j (l +ℤ pos (n * i))) owns run,
        )

-- Where the loop ascends and fits an `int` with one more round of chunks (`FitsChunks`): each
-- iteration falls to a thread of the team, whose number is that of the chunk it is in, modulo the
-- size of the team, and a thread of the team runs in its chunks exactly the iterations that fall to
-- it.
pub static_chunks-owner :
    {l : ℤ} {span i c team : ℕ} (f : FitsChunks l span i c team) (m h : ℕ) (v : ℤ)
    → m * i ≤ span
    → h < team
    → (chunk_owner c team m < team)
      × (ChunkRunBy l span i c team h v ↔ FallsTo (chunk_owner c team) l span i h v)
static_chunks-owner {l} {span} {i} {c} {team} f m h v le lt = (
  (owned m le).0,
  (
    λ run.
        let (k, j, short, inside, at) = chunk_index f h lt run in
        (index f h k j, inside, at, chunk_of f h k j lt short),
    λ (m', le', at, same).
        subst (λ w. ChunkRunBy l span i c team h w) (sym at)
          (subst (λ g. ChunkRunBy l span i c team g (l +ℤ pos (m' * i))) same (owned m' le').1),
  ),
)
  where
    owned :
        (n : ℕ)
        → n * i ≤ span
        → (chunk_owner c team n < team)
          × ChunkRunBy l span i c team (chunk_owner c team n) (l +ℤ pos (n * i))
    owned n le =
        let (g, gt, run) = static_chunks-covers f n le in
        let (k, j, short, inside, at) = chunk_index f g gt run in
        let same : n ≡ index f g k j = cancel_eq _ _ i f.step (+ℤ_cancel-pos l _ _ at) in
        let owns : g ≡ chunk_owner c team n =
          sym (chunk_of f g k j gt short) ∙ ap (chunk_owner c team) (sym same) in
        (
          subst (λ t. t < team) owns gt,
          subst (λ t. ChunkRunBy l span i c team t (l +ℤ pos (n * i))) owns run,
        )
