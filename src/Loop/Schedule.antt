-- ===== src/Loop/Schedule.antt =====
-- `enum sched_type` of src/intel_hpxMP.h, as far as src/loop_schedule.cpp names it.
use hpx_mp.Base.{ℕ}

abbrev pub kmp_sch_lower : ℕ
kmp_sch_lower = 32

abbrev pub kmp_sch_static_chunked : ℕ
kmp_sch_static_chunked = 33

abbrev pub kmp_sch_static : ℕ
kmp_sch_static = 34

abbrev pub kmp_sch_dynamic_chunked : ℕ
kmp_sch_dynamic_chunked = 35

abbrev pub kmp_sch_guided_chunked : ℕ
kmp_sch_guided_chunked = 36

abbrev pub kmp_sch_runtime : ℕ
kmp_sch_runtime = 37

abbrev pub kmp_sch_static_greedy : ℕ
kmp_sch_static_greedy = 40

abbrev pub kmp_ord_lower : ℕ
kmp_ord_lower = 64

abbrev pub kmp_ord_static_chunked : ℕ
kmp_ord_static_chunked = 65

abbrev pub kmp_ord_static : ℕ
kmp_ord_static = 66

abbrev pub kmp_ord_dynamic_chunked : ℕ
kmp_ord_dynamic_chunked = 67

abbrev pub kmp_ord_guided_chunked : ℕ
kmp_ord_guided_chunked = 68

abbrev pub kmp_ord_runtime : ℕ
kmp_ord_runtime = 69
