-- ===== src/BettingStore.antt =====
-- internal/bettingpg: the grading of the markets on a match, from the verified result.
pub mod Mapping
pub mod Mapped
pub mod Matches
pub mod Reported
pub mod Worker
pub mod Worked
mod Examples
