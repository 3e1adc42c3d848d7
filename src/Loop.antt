-- ===== src/Loop.antt =====
-- src/loop_schedule.cpp: static loops, dynamically dispatched loops and ordered regions.
pub mod Schedule
pub mod StaticInit
pub mod Data
pub mod Dispatch
pub mod Ordered
