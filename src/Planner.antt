-- ===== src/Planner.antt =====
-- The planner pass (src/core/parallelization_planner): which loops to parallelize, in which order.
pub mod LoopTree
pub mod Savings
pub mod Profiles
pub mod Filter
pub mod Timing
pub mod Selection
pub mod Plan
mod Tests
