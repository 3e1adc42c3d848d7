-- ===== src/Tool/Callbacks/Set.antt =====
-- What `ompt_set_callback` changes of what the runtime calls.
use hpx_mp.Base.{
  ℕ, zero, suc, ◌+◌, ◌≡◌, refl, ◌∙◌, true, not, Option, none, some, List, [], ◌∷◌, arith, ◌==◌,
  if◌then◌else◌, get_elem?, Option-cases, inl, inr,
}
use hpx_mp.Tool.Callbacks.{
  Event, events, event_id, event_of, Build, implementation_status, result_value, Ompt,
  ompt_set_callback, Call, not_called, called, guarded, target,
}

-- The events of a list have the numbers from `k` on.
NumberedFrom : ℕ → List Event → Type 0
NumberedFrom k [] = Unit {0}
NumberedFrom k (e ∷ es) = (event_id e ≡ k) × NumberedFrom (k + 1) es

events-NumberedFrom : NumberedFrom 1 events
unfolding events NumberedFrom event_id
events-NumberedFrom = omega arith

event_id-get :
    (k i : ℕ) (es : List Event) (e : Event)
    → NumberedFrom k es
    → get_elem? es i ≡ some e
    → event_id e ≡ k + i
unfolding NumberedFrom
event_id-get k i [] e n h = cc
event_id-get k zero (d ∷ es) e n h = ground (arith, n.0)
event_id-get k (suc i) (d ∷ es) e n h = omega (arith, event_id-get (k + 1) i es e n.1 h)

-- The number of an event that a number names.
event_of-id : (which : ℕ) (e : Event) → event_of which ≡ some e → event_id e ≡ which
unfolding event_of
event_of-id zero e h = cc
event_of-id (suc i) e h = omega (arith, event_id-get 1 i events e events-NumberedFrom h)

event_of-event_id : (e : Event) → event_of (event_id e) ≡ some e
unfolding event_of event_id events
event_of-event_id target = refl
event_of-event_id _ = refl

-- Every status but an error is not 0.
status_stored :
    (build : Build) (e : Event) → not (result_value (implementation_status build e) == 0) ≡ true
unfolding implementation_status
status_stored build target = refl
status_stored build _ = ground arith

-- The call that a callback makes.
abbrev pub calls : Option ℕ → Call
calls none = not_called
calls (some f) = called f

put_calls :
    (build : Build) (which : ℕ) (d e : Event) (callback : Option ℕ) (s : Ompt)
    → event_of which ≡ some d
    → guarded e (ompt_set_callback build which callback s).0
      ≡ (if event_id d == event_id e then calls callback else guarded e s)
unfolding ompt_set_callback guarded
put_calls build which d e none s h = rw h (rw (status_stored build d) (ground arith))
put_calls build which d e (some f) s h = rw h (rw (status_stored build d) (ground arith))

unset_calls :
    (build : Build) (which : ℕ) (e : Event) (callback : Option ℕ) (s : Ompt)
    → event_of which ≡ none
    → (ompt_set_callback build which callback s).0 ≡ s
unfolding ompt_set_callback
unset_calls build which e callback s h = rw h refl

-- The event of the number that is set gets the new call, and the others keep theirs.
pub set_calls :
    (build : Build) (which : ℕ) (e : Event) (callback : Option ℕ) (s : Ompt)
    → guarded e (ompt_set_callback build which callback s).0
      ≡ (if which == event_id e then calls callback else guarded e s)
set_calls build which e callback s = elim (Option-cases (event_of which)) [
  | inl unknown ↦
      rw (unset_calls build which e callback s unknown)
        (ground (arith, unknown, event_of-event_id e))
  | inr (d, known) ↦
      put_calls build which d e callback s known ∙ rw (event_of-id which d known) refl
]
