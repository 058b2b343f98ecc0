-- ===== src/Lahc.antt =====
-- The local search of solver/solver-core/src/lahc.rs.
pub mod Delta
pub mod Balance
pub mod Change
pub mod Room
pub mod Score
pub mod Run
pub mod Split
