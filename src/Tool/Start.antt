-- ===== src/Tool/Start.antt =====
-- `ompt_pre_init` and `ompt_post_init` of src/ompt_hpx-general.cpp, around the start of the runtime
-- in `__kmpc_global_thread_num` (src/intel_hpxMP.cpp). The tool is a parameter: `ompt_start_tool`
-- finds one or none, and its `initialize` sets callbacks and says whether it wants to be called.
pub mod Fires
use Prim.Native.Char.{code}
use Prim.Native.String.{String}
use hpx_mp.Base.{
  ℕ, zero, suc, ◌+◌, ◌≡◌, Bool, true, false, Option, none, some, List, [], ◌∷◌, map, ◌==◌, ◌&&◌,
  leb, if◌then◌else◌,
}
use hpx_mp.Tool.Callbacks.{
  Event, thread_begin, Build, Ompt, Call, not_called, ompt_set_callback, fire,
}

-- The code points of a text.
abbrev pub codes : String → List ℕ
codes String.[] = []
codes (String.◌∷◌ c s) = code c ∷ codes s

abbrev pub to_lower : ℕ → ℕ
to_lower c = if leb b'A' c && leb c b'Z' then c + 32 else c

-- `!strcasecmp(haystack, needle)`
abbrev pub str_match : List ℕ → List ℕ → Bool
str_match [] [] = true
str_match [] (d ∷ ds) = false
str_match (c ∷ cs) [] = false
str_match (c ∷ cs) (d ∷ ds) = (to_lower c == to_lower d) && str_match cs ds

-- `tool_setting_e`
pub data ToolSetting : Type 0 where
  tool_error tool_unset tool_disabled tool_enabled : ToolSetting

abbrev setting_of : List ℕ → ToolSetting
setting_of [] = tool_unset
setting_of (c ∷ cs) =
    if str_match (c ∷ cs) (codes "disabled")
    then tool_disabled
    else if str_match (c ∷ cs) (codes "enabled")
    then tool_enabled
    else tool_error

-- What the environment variable OMP_TOOL says.
unfoldable pub tool_setting : Option (List ℕ) → ToolSetting
tool_setting none = tool_unset
tool_setting (some omp_tool) = setting_of omp_tool

-- The calls of `ompt_set_callback` that a tool's `initialize` makes, and whether it returns a
-- number other than 0.
pub record Tool : Type 0 where
  pub registers : List (ℕ × Option ℕ)
  pub accepts : Bool

pub record Runtime : Type 0 where
  pub pre_initialized : Bool
  pub post_initialized : Bool
  pub start_tool_result : Option Tool
  pub ompt : Ompt

unfoldable pub loaded : Runtime
loaded = record {
  pre_initialized = false;
  post_initialized = false;
  start_tool_result = none;
  ompt = record { enabled = false; active = λ e. false; callback = λ e. none };
}

-- `memset(&ompt_enabled, 0, …)`
abbrev pub zeroed : Ompt → Ompt
zeroed s = record s { enabled = false; active = λ e. false }

abbrev pub starts : ToolSetting → Bool
starts tool_error = false
starts tool_unset = true
starts tool_disabled = false
starts tool_enabled = true

unfoldable pub ompt_pre_init : Option (List ℕ) → Option Tool → Runtime → Runtime
unfolding tool_setting
ompt_pre_init omp_tool start_tool s =
    if s.pre_initialized
    then s
    else if starts (tool_setting omp_tool)
    then record s { pre_initialized = true; start_tool_result = start_tool; ompt = zeroed s.ompt }
    else record s { pre_initialized = true }

unfoldable pub register_all : Build → List (ℕ × Option ℕ) → Ompt → Ompt
register_all build [] s = s
register_all build ((which, callback) ∷ rest) s =
    register_all build rest (ompt_set_callback build which callback s).0

abbrev pub initialize : Build → Ompt → Option Tool → Ompt × Call
initialize build s none = (s, not_called)
initialize build s (some tool) =
    let registered = register_all build tool.registers s in
    if tool.accepts
    then (
      record registered { enabled = true },
      fire thread_begin (record registered { enabled = true }),
    )
    else (zeroed registered, not_called)

-- The new state and the call for the initial thread.
unfoldable pub ompt_post_init : Build → Runtime → Runtime × Call
unfolding fire register_all
ompt_post_init build s =
    if s.post_initialized
    then (s, not_called)
    else let (ompt, call) = initialize build s.ompt s.start_tool_result in
      (record s { post_initialized = true; ompt = ompt }, call)

-- Without the start of HPX between the two. The number that the call returns is HPX's.
unfoldable pub kmpc_global_thread_num :
    Build → Option (List ℕ) → Option Tool → Runtime → Runtime × Call
unfolding ompt_pre_init ompt_post_init
kmpc_global_thread_num build omp_tool start_tool s =
    ompt_post_init build (ompt_pre_init omp_tool start_tool s)

unfoldable pub thread_nums : Build → Option (List ℕ) → Option Tool → ℕ → Runtime
unfolding loaded kmpc_global_thread_num
thread_nums build omp_tool start_tool zero = loaded
thread_nums build omp_tool start_tool (suc k) =
    (kmpc_global_thread_num build omp_tool start_tool (thread_nums build omp_tool start_tool k)).0
