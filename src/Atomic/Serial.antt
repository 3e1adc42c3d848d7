-- ===== src/Atomic/Serial.antt =====
-- What `#pragma omp atomic` promises: the updates of a cell happen one after the other.
use hpx_mp.Base.{ℕ, ◌≡◌, Option, none, some, List, [], ◌∷◌, ◌==◌, if◌then◌else◌}

-- A finished update: the thread, the value that it found and the value that it left.
pub record Commit : Type 0 where
  pub thread : ℕ
  pub old_value : ℕ
  pub new_value : ℕ

-- What a thread's update found and left, if it is among those finished.
abbrev pub lookup : List Commit → ℕ → Option (ℕ × ℕ)
lookup [] g = none
lookup (c ∷ h) g = if c.thread == g then some (c.old_value, c.new_value) else lookup h g

-- From `x` on, the updates of a list (the latest first), each in one piece and one for a thread,
-- leave a value. An update of a value may have no result.
pub data Serial (update_by : ℕ → ℕ → Option ℕ) (x : ℕ) : List Commit → ℕ → Type 0 where
  untouched : Serial update_by x [] x
  commit :
      {h : List Commit} {y z : ℕ} (g : ℕ)
      → Serial update_by x h y
      → lookup h g ≡ none
      → update_by g y ≡ some z
      → Serial update_by x (record { thread = g; old_value = y; new_value = z } ∷ h) z
