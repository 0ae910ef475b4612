-- ===== src/Planner.antt =====
-- The planner: src/planner and the containers that it keeps its state in.
pub mod Policy
pub mod Problem
pub mod Wisdom
pub mod Run
pub mod Search
pub mod Plans
pub mod CooleyTukey
pub mod Convolutions
pub mod Strategies
pub mod Factors
pub mod Recursion
mod Examples
