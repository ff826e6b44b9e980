-- ===== src/Ledger.antt =====
-- internal/ledger: money in whole cents, American odds, and balanced transactions.
pub mod Money
pub mod Odds
pub mod Posting
pub mod Sums
pub mod Profit
pub mod Returns
pub mod Balance
pub mod Transfers
mod Examples
