-- ===== src/Legacy.antt =====
-- internal/migration/legacybook: the reconciliation of the archived book.
pub mod Parse
pub mod Records
pub mod Users
pub mod Transactions
pub mod Wagers
pub mod Reconcile
pub mod Recorded
pub mod Matched
pub mod Sound
pub mod Closed
pub mod Accounted
mod Examples
