-- ===== src/Betting.antt =====
-- internal/betting: markets, wagers and adjustments, as pure commands.
pub mod Errors
pub mod Types
pub mod Payloads
pub mod Enveloped
pub mod Place
pub mod Placed
pub mod Accept
pub mod Accepted
pub mod Settle
pub mod Winning
pub mod Legs
pub mod Settled
pub mod Settlement
pub mod Payable
pub mod Settleable
pub mod Partition
pub mod Ordered
pub mod Market
pub mod Grading
pub mod Regrading
pub mod Void
pub mod Refunded
pub mod Voiding
pub mod Unwind
pub mod Unwound
pub mod Adjust
pub mod Adjusted
pub mod Reversed
pub mod Reversible
pub mod Life
pub mod Escrow
pub mod Course
pub mod Parlay
mod Examples
