-- ===== src/Greedy.antt =====
-- The greedy phase of solver/solver-core/src/solve.rs, and the bookkeeping that lahc.rs keeps up with it.
pub mod State
pub mod Rows
pub mod Tracks
pub mod Seed
pub mod Travel
pub mod Place
pub mod Lesson
pub mod Pins
