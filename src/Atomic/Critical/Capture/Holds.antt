-- ===== src/Atomic/Critical/Capture/Holds.antt =====
-- Who holds the lock in the critical sections of src/kmp_atomic.cpp that capture a value, and what a
-- thread there has of the cell.
use mathlib.Core.Option.{some-injective}
use hpx_mp.Base.{
  ℕ, ◌≡◌, ◌≢◌, refl, sym, ◌∙◌, Bool, true, false, Option, none, some, ap, if◌then◌else◌,
}
use hpx_mp.Atomic.Fixed.{captured}
use hpx_mp.Atomic.Critical.Capture.{CaptureStage, computed_cpt, step_capture}

-- What is captured before the update.
abbrev taken_first : Bool → ℕ → Option ℕ
taken_first flag o = if flag then none else some o

-- Who is between acquiring and releasing holds the lock, and what it has of the cell is right.
abbrev pub Holds : Bool → (ℕ → Option ℕ) → ℕ → Option ℕ → ℕ → CaptureStage → Type 0
Holds flag f cell lock g CaptureStage.acquire = Unit
Holds flag f cell lock g CaptureStage.locked = lock ≡ some g
Holds flag f cell lock g (CaptureStage.kept v) = (lock ≡ some g) × (cell ≡ v) × (flag ≡ false)
Holds flag f cell lock g (CaptureStage.loaded v o n) =
    (lock ≡ some g) × (cell ≡ o) × (v ≡ taken_first flag o)
Holds flag f cell lock g (CaptureStage.stored v o n) =
    (lock ≡ some g) × (cell ≡ n) × (v ≡ taken_first flag o)
Holds flag f cell lock g (CaptureStage.read_back v o n) =
    (lock ≡ some g) × (v ≡ captured flag (o, n))
Holds flag f cell lock g (CaptureStage.released v o n) = v ≡ captured flag (o, n)
Holds flag f cell lock g CaptureStage.trapped = lock ≡ some g

Holds-free :
    (flag : Bool) (f : ℕ → Option ℕ) (cell cell' : ℕ) (lock lock' : Option ℕ) (g : ℕ)
    (u : CaptureStage)
    → lock ≢ some g
    → Holds flag f cell lock g u
    → Holds flag f cell' lock' g u
Holds-free flag f cell cell' lock lock' g CaptureStage.acquire ne h = tt
Holds-free flag f cell cell' lock lock' g CaptureStage.locked ne h = absurd (ne h)
Holds-free flag f cell cell' lock lock' g (CaptureStage.kept v) ne h = absurd (ne h.0)
Holds-free flag f cell cell' lock lock' g (CaptureStage.loaded v o n) ne h = absurd (ne h.0)
Holds-free flag f cell cell' lock lock' g (CaptureStage.stored v o n) ne h = absurd (ne h.0)
Holds-free flag f cell cell' lock lock' g (CaptureStage.read_back v o n) ne h = absurd (ne h.0)
Holds-free flag f cell cell' lock lock' g (CaptureStage.released v o n) ne h = h
Holds-free flag f cell cell' lock lock' g CaptureStage.trapped ne h = absurd (ne h)

computed-Holds :
    (flag : Bool) (f : ℕ → Option ℕ) (cell : ℕ) (lock : Option ℕ) (g : ℕ) (v r : Option ℕ)
    → lock ≡ some g
    → v ≡ taken_first flag cell
    → Holds flag f cell lock g (computed_cpt v cell r)
computed-Holds flag f cell lock g v none own e = own
computed-Holds flag f cell lock g v (some n) own e = (own, refl, e)

none_first : (flag : Bool) (o : ℕ) → none ≡ taken_first flag o → flag ≡ true
none_first true o e = refl
none_first false o e = cc

some_first : (flag : Bool) (v o : ℕ) → some v ≡ taken_first flag o → (flag ≡ false) × (v ≡ o)
some_first true v o e = cc
some_first false v o e = (refl, some-injective _ _ e)

-- A thread's own access.
pub mine-Holds :
    (flag : Bool) (f : ℕ → Option ℕ) (g cell : ℕ) (lock : Option ℕ) (u : CaptureStage)
    → Holds flag f cell lock g u
    → Holds flag f
        (step_capture flag f g cell lock u).0
        (step_capture flag f g cell lock u).1
        g
        (step_capture flag f g cell lock u).2
unfolding step_capture captured
mine-Holds flag f g cell none CaptureStage.acquire h = refl
mine-Holds flag f g cell (some owner) CaptureStage.acquire h = tt
mine-Holds true f g cell lock CaptureStage.locked h =
    computed-Holds true f cell lock g none (f cell) h refl
mine-Holds false f g cell lock CaptureStage.locked h = (h, refl, refl)
mine-Holds flag f g cell lock (CaptureStage.kept v) (own, same, unset) =
    computed-Holds flag f cell lock g (some v) (f cell) own (rw unset (ap some (sym same)))
mine-Holds flag f g cell lock (CaptureStage.loaded v o n) (own, same, e) = (own, refl, e)
mine-Holds flag f g cell lock (CaptureStage.stored none o n) (own, same, e) =
    (own, rw (none_first flag o e) same)
mine-Holds flag f g cell lock (CaptureStage.stored (some v) o n) (own, same, e) =
    let (unset, e') = some_first flag v o e in rw unset e'
mine-Holds flag f g cell lock (CaptureStage.read_back v o n) (own, e) = e
mine-Holds flag f g cell lock (CaptureStage.released v o n) h = h
mine-Holds flag f g cell lock CaptureStage.trapped h = h

-- The lock of another thread, which is not this one's.
not_theirs : (lock : Option ℕ) (g j : ℕ) → lock ≡ some g → g ≢ j → lock ≢ some j
not_theirs lock g j e ne e' = ne (some-injective _ _ (sym e ∙ e'))

-- Another thread's access.
pub others-Holds :
    (flag flag' : Bool) (f f' : ℕ → Option ℕ) (g j cell : ℕ) (lock : Option ℕ) (u t : CaptureStage)
    → g ≢ j
    → Holds flag f cell lock g u
    → Holds flag' f' cell lock j t
    → Holds flag' f' (step_capture flag f g cell lock u).0 (step_capture flag f g cell lock u).1 j t
unfolding step_capture
others-Holds flag flag' f f' g j cell none CaptureStage.acquire t ne h w =
    Holds-free flag' f' cell cell none (some g) j t (λ e. cc) w
others-Holds flag flag' f f' g j cell (some owner) CaptureStage.acquire t ne h w = w
others-Holds flag flag' f f' g j cell lock CaptureStage.locked t ne h w = w
others-Holds flag flag' f f' g j cell lock (CaptureStage.kept v) t ne h w = w
others-Holds flag flag' f f' g j cell lock (CaptureStage.loaded v o n) t ne h w =
    Holds-free flag' f' cell n lock lock j t (not_theirs lock g j h.0 ne) w
others-Holds flag flag' f f' g j cell lock (CaptureStage.stored none o n) t ne h w = w
others-Holds flag flag' f f' g j cell lock (CaptureStage.stored (some v) o n) t ne h w =
    Holds-free flag' f' cell cell lock none j t (not_theirs lock g j h.0 ne) w
others-Holds flag flag' f f' g j cell lock (CaptureStage.read_back v o n) t ne h w =
    Holds-free flag' f' cell cell lock none j t (not_theirs lock g j h.0 ne) w
others-Holds flag flag' f f' g j cell lock (CaptureStage.released v o n) t ne h w = w
others-Holds flag flag' f f' g j cell lock CaptureStage.trapped t ne h w = w
