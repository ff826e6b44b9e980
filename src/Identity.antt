-- ===== src/Identity.antt =====
-- internal/identity: who is signed in, and what a member, an administrator and the owner may do.
pub mod Types
pub mod Authorize
pub mod Session
pub mod Secrets
pub mod Service
pub mod Allowed
pub mod Active
pub mod Issued
mod Examples
