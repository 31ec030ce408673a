-- ===== src/Payment.antt =====
-- src/internal/domain/payment: the bank's notification and its validation, the ledger entry, and the
-- service that turns a notification into an outcome.
pub mod Entity
pub mod Validate
pub mod Service
pub mod Effects
pub mod Quiet
pub mod Once
pub mod Replays
pub mod Moves
pub mod Paid
pub mod Acknowledged
pub mod Invariants
pub mod CacheSound
pub mod Originals
pub mod Refs
pub mod Owners
pub mod Accepts
pub mod Idempotency
