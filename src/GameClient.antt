-- ===== src/GameClient.antt =====
-- src/client.rs: the client of one region's game. What each module is about is said in it.
pub mod Charges
pub mod Settlement
pub mod Settled
pub mod Reports
pub mod Versions
pub mod VersionCalls
pub mod Kept
pub mod Refreshes
pub mod Stale
pub mod Answers
pub mod Frames
pub mod Calls
pub mod Repeats
mod Tests
