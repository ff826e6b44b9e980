-- ===== src/Betting/Parlay.antt =====
-- internal/betting/parlay.go and parlayprice.go: one stake on several matches.
pub mod Price
pub mod Place
pub mod Grade
pub mod Priced
pub mod Distinct
pub mod Placed
pub mod Graded
pub mod Won
pub mod Examples
