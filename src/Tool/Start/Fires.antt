-- ===== src/Tool/Start/Fires.antt =====
-- What a tool has set is what the runtime calls.
use hpx_mp.Base.{
  ℕ, ◌≡◌, refl, ◌∙◌, true, Option, none, some, List, [], ◌∷◌, arith, ◌==◌, ◌&&◌, if◌then◌else◌,
  Bool-cases, inl, inr, ap,
}
use hpx_mp.Tool.Callbacks.{
  Event, thread_begin, event_id, Build, Ompt, Call, not_called, guarded, fire, ompt_set_callback,
}
use hpx_mp.Tool.Callbacks.Set.{calls, set_calls}
use hpx_mp.Tool.Start.{tool_setting, Tool, Runtime, starts, register_all, initialize}

abbrev or_else : Option (Option ℕ) → Option (Option ℕ) → Option (Option ℕ)
or_else none o = o
or_else (some c) o = some c

-- The callback that a list of calls of `ompt_set_callback` gives a number: the last.
abbrev pub last_set : ℕ → List (ℕ × Option ℕ) → Option (Option ℕ)
last_set id [] = none
last_set id ((which, callback) ∷ rest) =
    or_else (last_set id rest) (if which == id then some callback else none)

abbrev set_call : Option (Option ℕ) → Call → Call
set_call none before = before
set_call (some callback) before = calls callback

register_all-guarded :
    (build : Build) (e : Event) (rs : List (ℕ × Option ℕ)) (s : Ompt)
    → guarded e (register_all build rs s) ≡ set_call (last_set (event_id e) rs) (guarded e s)
unfolding register_all
register_all-guarded build e [] s = refl
register_all-guarded build e ((which, callback) ∷ rs) s =
    register_all-guarded build e rs (ompt_set_callback build which callback s).0
    ∙ ground (arith, set_calls build which e callback s)

-- What is to be called for an event: what the tool set last, if OMP_TOOL lets a tool start, one is found
-- and its `initialize` accepts.
abbrev pub expected : Option (List ℕ) → Option Tool → Event → Call
expected omp_tool none e = not_called
expected omp_tool (some tool) e =
    if starts (tool_setting omp_tool) && tool.accepts
    then set_call (last_set (event_id e) tool.registers) not_called
    else not_called

guarded-enabled : (e : Event) (s : Ompt) → guarded e (record s { enabled = true }) ≡ guarded e s
unfolding guarded
guarded-enabled e s = refl

first_call :
    (build : Build) (tool : Tool) (s : Ompt)
    → guarded thread_begin s ≡ not_called
    → (initialize build s (some tool)).1 ≡ (
        if tool.accepts
        then set_call (last_set (event_id thread_begin) tool.registers) not_called
        else not_called)
unfolding fire
first_call build tool s quiet = elim (Bool-cases tool.accepts) [
  | inl accepted ↦ rw accepted (
      guarded-enabled thread_begin (register_all build tool.registers s)
      ∙ register_all-guarded build thread_begin tool.registers s
      ∙ ap (set_call (last_set (event_id thread_begin) tool.registers)) quiet)
  | inr refused ↦ rw refused refl
]

-- A later call does nothing.
IsInitialized : Runtime → Type 0
IsInitialized s = (s.pre_initialized ≡ true) × (s.post_initialized ≡ true)
