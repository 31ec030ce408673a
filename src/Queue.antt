-- ===== src/Queue.antt =====
-- src/internal/infrastructure/queue: the workers that drain the stream. `Enqueue` is with the service
-- that calls it. A command of Redis is one call of the environment; its effect on the stream is the
-- documented one.
pub mod Worker
pub mod Quiet
pub mod Effects
pub mod Messages
pub mod Coverage
pub mod Drains
pub mod Handoff
pub mod Loops
pub mod Rounds
pub mod Order
pub mod Kept
pub mod Ordered
pub mod Invariants
pub mod Sound
