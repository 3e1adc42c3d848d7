-- ===== src/Tool/Callbacks.antt =====
-- The callbacks of a tool: the events of src/ompt.h, their status in src/ompt-event-specific.h, and
-- `ompt_set_callback` of src/ompt_hpx-general.cpp.
pub mod Set
use hpx_mp.Base.{
  ℕ, zero, suc, ◌+◌, ◌-◌, ◌≡◌, refl, Bool, true, false, not, Option, none, some, List, [], ◌∷◌,
  ◌==◌, if◌then◌else◌, get_elem?,
}

-- `ompt_callbacks_t`, by the order of `FOREACH_OMPT_EVENT`.
pub data Event : Type 0 where
  thread_begin thread_end parallel_begin parallel_end task_create task_schedule implicit_task :
      Event
  target target_data_op target_submit control_tool device_initialize device_finalize : Event
  device_load device_unload sync_region_wait mutex_released task_dependences : Event
  task_dependence work master target_map sync_region lock_init lock_destroy : Event
  mutex_acquire mutex_acquired nest_lock flush cancel idle : Event

unfoldable pub events : List Event
events =
    thread_begin ∷ thread_end ∷ parallel_begin ∷ parallel_end ∷ task_create ∷ task_schedule
    ∷ implicit_task ∷ target ∷ target_data_op ∷ target_submit ∷ control_tool ∷ device_initialize
    ∷ device_finalize ∷ device_load ∷ device_unload ∷ sync_region_wait ∷ mutex_released
    ∷ task_dependences ∷ task_dependence ∷ work ∷ master ∷ target_map ∷ sync_region ∷ lock_init
    ∷ lock_destroy ∷ mutex_acquire ∷ mutex_acquired ∷ nest_lock ∷ flush ∷ cancel ∷ idle ∷ []

unfoldable pub event_id : Event → ℕ
event_id thread_begin = 1
event_id thread_end = 2
event_id parallel_begin = 3
event_id parallel_end = 4
event_id task_create = 5
event_id task_schedule = 6
event_id implicit_task = 7
event_id target = 8
event_id target_data_op = 9
event_id target_submit = 10
event_id control_tool = 11
event_id device_initialize = 12
event_id device_finalize = 13
event_id device_load = 14
event_id device_unload = 15
event_id sync_region_wait = 16
event_id mutex_released = 17
event_id task_dependences = 18
event_id task_dependence = 19
event_id work = 20
event_id master = 21
event_id target_map = 22
event_id sync_region = 23
event_id lock_init = 24
event_id lock_destroy = 25
event_id mutex_acquire = 26
event_id mutex_acquired = 27
event_id nest_lock = 28
event_id flush = 29
event_id cancel = 30
event_id idle = 31

-- The `case` labels of `ompt_set_callback`.
unfoldable pub event_of : ℕ → Option Event
unfolding events
event_of zero = none
event_of (suc i) = get_elem? events i

-- `ompt_set_result_t`
pub data SetResult : Type 0 where
  set_error set_never set_sometimes set_sometimes_paired set_always : SetResult

abbrev pub result_value : SetResult → ℕ
result_value set_error = 0
result_value set_never = 1
result_value set_sometimes = 2
result_value set_sometimes_paired = 3
result_value set_always = 4

-- `OMPT_OPTIONAL` and `OMP_40_ENABLED`
pub record Build : Type 0 where
  pub optional : Bool
  pub omp_40_enabled : Bool

abbrev pub may_always_optional : Build → SetResult
may_always_optional build = if build.optional then set_always else set_never

-- `ompt_event_implementation_status`
unfoldable pub implementation_status : Build → Event → SetResult
implementation_status build target = set_never
implementation_status build target_data_op = set_never
implementation_status build target_submit = set_never
implementation_status build device_initialize = set_never
implementation_status build device_finalize = set_never
implementation_status build device_load = set_never
implementation_status build device_unload = set_never
implementation_status build target_map = set_never
implementation_status build task_dependences =
    if build.omp_40_enabled then may_always_optional build else set_never
implementation_status build task_dependence =
    if build.omp_40_enabled then may_always_optional build else set_never
implementation_status build sync_region_wait = may_always_optional build
implementation_status build mutex_released = may_always_optional build
implementation_status build work = may_always_optional build
implementation_status build master = may_always_optional build
implementation_status build sync_region = may_always_optional build
implementation_status build lock_init = may_always_optional build
implementation_status build lock_destroy = may_always_optional build
implementation_status build mutex_acquire = may_always_optional build
implementation_status build mutex_acquired = may_always_optional build
implementation_status build nest_lock = may_always_optional build
implementation_status build flush = may_always_optional build
implementation_status build cancel = may_always_optional build
implementation_status build idle = may_always_optional build
implementation_status build thread_begin = set_always
implementation_status build thread_end = set_always
implementation_status build parallel_begin = set_always
implementation_status build parallel_end = set_always
implementation_status build task_create = set_always
implementation_status build task_schedule = set_always
implementation_status build implicit_task = set_always
implementation_status build control_tool = set_always

-- `ompt_enabled` and `ompt_callbacks`: a callback is the address of a function, or null.
pub record Ompt : Type 0 where
  pub enabled : Bool
  pub active : Event → Bool
  pub callback : Event → Option ℕ

abbrev pub is_some : Option ℕ → Bool
is_some none = false
is_some (some f) = true

abbrev pub put {ℓ} : {A : Type ℓ} → (Event → A) → Event → A → Event → A
put f e a d = if event_id e == event_id d then a else f d

abbrev pub answer : SetResult → Option ℕ → SetResult
answer status none = set_always
answer status (some f) = status

abbrev set_event : Build → Option ℕ → Ompt → Option Event → Ompt × SetResult
set_event build callback s none = (s, set_error)
set_event build callback s (some e) =
    let status = implementation_status build e in
    (
      if not (result_value status == 0)
          then record s {
            active = put s.active e (is_some callback);
            callback = put s.callback e callback;
          }
          else s,
      answer status callback,
    )

unfoldable pub ompt_set_callback : Build → ℕ → Option ℕ → Ompt → Ompt × SetResult
ompt_set_callback build which callback s = set_event build callback s (event_of which)

-- What `if (ompt_enabled.e) ompt_callbacks.e(…)` does.
pub data Call : Type 0 where
  not_called null_call : Call
  called : ℕ → Call

abbrev pub call_of : Option ℕ → Call
call_of none = null_call
call_of (some f) = called f

unfoldable pub guarded : Event → Ompt → Call
guarded e s = if s.active e then call_of (s.callback e) else not_called

-- The events for which the source has such a line: in `thread_setup`, `fork`, `ompt_post_init` and
-- `fini_runtime`.
abbrev pub is_reported : Event → Bool
is_reported thread_begin = true
is_reported thread_end = true
is_reported parallel_begin = true
is_reported parallel_end = true
is_reported _ = false

-- What the runtime does where an event happens.
unfoldable pub fire : Event → Ompt → Call
unfolding guarded
fire e s = if is_reported e then guarded e s else not_called
