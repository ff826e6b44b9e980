-- ===== src/Events.antt =====
-- internal/events: the envelope that is written beside a domain change.
pub mod Envelope
pub mod Payloads
pub mod Backoff
pub mod Delay
pub mod Outbox
pub mod Claim
pub mod Dispatcher
pub mod Delivery
pub mod Table
pub mod Rows
pub mod Unique
pub mod Steps
mod Examples
