-- ===== src/Tool/UniqueId.antt =====
-- `ompt_get_unique_id` of src/ompt_hpx-general.cpp.
mod Spread
pub mod Differ
use hpx_mp.Base.{
  ℕ, zero, suc, ◌+◌, ◌-◌, ◌*◌, ◌/◌, ◌%◌, ◌≤◌, ◌<◌, ◌≡◌, ◌≢◌, ◌⊎◌, inl, inr, refl, Bool, true, false,
  not, List, [], ◌∷◌, arith, ◌==◌, ◌&&◌, if◌then◌else◌, update, update-all, update_self, update_ne,
  All, length, count_below, one_if, All-imp, count_below-change, Bool-cases, ℕ_discrete, subst,
}

-- The shared number of the next thread, and every thread's own `ID`, both 64 bits wide.
pub record Ids : Type 0 where
  pub thread : ℕ
  pub id : ℕ → ℕ

abbrev pub u64 : ℕ → ℕ
u64 n = n % 18446744073709551616

-- `<< (sizeof(uint64_t) * 8 - 16)`
abbrev pub shifted : ℕ → ℕ
shifted n = u64 (n * 281474976710656)

unfoldable pub loaded : Ids
loaded = record { thread = 1; id = λ tid. 0 }

-- One call, on a thread: the new state and the number returned.
unfoldable pub get_unique_id : Bool → ℕ → Ids → Ids × ℕ
get_unique_id hpx_backend tid s =
    let first = (s.id tid == 0) && hpx_backend in
    let id = if first then shifted s.thread else s.id tid in
    (
      record {
        thread = if first then u64 (s.thread + 1) else s.thread;
        id = update s.id tid (u64 (id + 1));
      },
      u64 (id + 1),
    )

-- The calls of several threads in an order, once the backend is there: the numbers returned, the
-- latest first.
unfoldable pub unique_ids : Ids → List ℕ → List ℕ → Ids × List ℕ
unique_ids s [] out = (s, out)
unique_ids s (tid ∷ tids) out =
    let (s', id) = get_unique_id true tid s in unique_ids s' tids (id ∷ out)
