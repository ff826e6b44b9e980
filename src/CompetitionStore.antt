-- ===== src/CompetitionStore.antt =====
-- internal/competitionpg: the statistics of the players, from verified results.
pub mod Stats
pub mod Counted
pub mod Delivered
mod Examples
