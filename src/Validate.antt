-- ===== src/Validate.antt =====
-- The validators of solver/solver-core/src/validate.rs.
pub mod Outcome
pub mod Entries
pub mod RoomHopping
pub mod Teachers
pub mod BreakSlots
pub mod PreSolve
pub mod Structural
pub mod DailyCaps
pub mod DoubleBooking
pub mod TravelBuffer
