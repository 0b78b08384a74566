-- ===== src/Rs.antt =====
-- mongo-wrapper/src/rs.rs: the replica set orchestration.
pub mod Decide
pub mod Gone
pub mod Orchestrate
pub mod Standalone
pub mod State
pub mod Duties
mod Tests
