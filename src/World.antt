-- ===== src/World.antt =====
-- What the domain services run against: the tables in Postgres, the Redis cache
-- (src/internal/infrastructure/cache) and the stream, with a network that can fail at every call.
-- Calls are numbered; the environment says for each number what the network does, what the clock
-- shows and which UUID is generated.
pub mod State
pub mod Cache
pub mod Repository
pub mod Effects
