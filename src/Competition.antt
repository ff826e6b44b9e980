-- ===== src/Competition.antt =====
-- internal/competition: players, teams, matches and their verified results.
pub mod Errors
pub mod Types
pub mod Match
pub mod Submit
pub mod Confirm
pub mod Verify
pub mod Run
pub mod Replay
pub mod Inverted
pub mod Chain
pub mod Shapes
pub mod Sound
pub mod Confirmed
pub mod Verdict
pub mod Panic
pub mod Fair
mod Examples
