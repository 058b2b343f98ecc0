-- ===== src/Score.antt =====
-- The soft score of solver/solver-core/src/score.rs.
pub mod Partition
pub mod Gaps
pub mod Balance
pub mod Preference
pub mod HomeRoom
pub mod Slice
pub mod Worst
pub mod Solution
