-- ===== src/Pricing.antt =====
-- internal/pricing: how a line moves with the stakes on it.
pub mod Floats
pub mod Fixed
pub mod Line
pub mod Reprice
pub mod Bounds
pub mod Floors
pub mod Lengths
pub mod Repriced
pub mod Book
pub mod Examples
