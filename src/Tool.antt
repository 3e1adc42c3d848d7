-- ===== src/Tool.antt =====
-- The tools interface of src/ompt_hpx-general.cpp and src/ompt-event-specific.h, and the calls to a
-- tool around a region in src/hpx_runtime.cpp.
pub mod Callbacks
pub mod Start
pub mod Region
pub mod UniqueId
pub mod Examples
